-- ===== src/Scripts/Tables/Script3007/PartB.antt =====
-- The functions 150 to 299 of sample-assets-small/script-0007.js, a row for each line.
use cache_server_go.Base.{List, [], ◌∷◌}
use cache_server_go.Scripts.Fn.{Fn, ◌x+◌, ◌x-◌}

unfoldable pub fns_3007_b : List Fn
fns_3007_b =
    483527 x- 15
    ∷ 655234 x+ 58
    ∷ 881274 x- 58
    ∷ 23389 x- 6
    ∷ 861452 x+ 83
    ∷ 361312 x- 33
    ∷ 907170 x+ 22
    ∷ 392300 x+ 96
    ∷ 392391 x- 11
    ∷ 301510 x- 26
    ∷ 802759 x+ 45
    ∷ 717353 x- 50
    ∷ 673486 x- 78
    ∷ 689952 x+ 50
    ∷ 290408 x- 91
    ∷ 605102 x- 56
    ∷ 320685 x- 30
    ∷ 920357 x+ 53
    ∷ 369180 x+ 11
    ∷ 172562 x+ 51
    ∷ 418917 x- 68
    ∷ 323452 x+ 2
    ∷ 457477 x+ 66
    ∷ 865235 x- 27
    ∷ 933738 x- 53
    ∷ 208864 x- 19
    ∷ 866003 x- 27
    ∷ 7714 x+ 92
    ∷ 275795 x+ 91
    ∷ 950627 x+ 56
    ∷ 129254 x+ 49
    ∷ 893218 x- 23
    ∷ 310807 x- 69
    ∷ 119796 x- 47
    ∷ 120721 x- 61
    ∷ 828888 x- 64
    ∷ 290639 x- 31
    ∷ 251691 x- 78
    ∷ 984887 x+ 77
    ∷ 837245 x+ 0
    ∷ 624783 x+ 55
    ∷ 422279 x+ 14
    ∷ 926346 x- 11
    ∷ 25983 x- 57
    ∷ 202924 x- 75
    ∷ 559986 x- 25
    ∷ 182440 x+ 4
    ∷ 747137 x+ 34
    ∷ 261186 x+ 81
    ∷ 644414 x+ 73
    ∷ 296665 x+ 12
    ∷ 414014 x- 59
    ∷ 615718 x- 82
    ∷ 400487 x- 31
    ∷ 821706 x+ 21
    ∷ 906027 x- 52
    ∷ 839530 x+ 18
    ∷ 780859 x+ 41
    ∷ 296633 x- 26
    ∷ 60589 x+ 22
    ∷ 187468 x- 93
    ∷ 387037 x- 39
    ∷ 276874 x- 57
    ∷ 311044 x+ 25
    ∷ 147552 x+ 3
    ∷ 902511 x- 64
    ∷ 400534 x+ 88
    ∷ 172925 x+ 8
    ∷ 70865 x+ 3
    ∷ 926287 x+ 34
    ∷ 593215 x+ 64
    ∷ 227551 x+ 22
    ∷ 378754 x- 93
    ∷ 288290 x+ 80
    ∷ 67210 x+ 91
    ∷ 852930 x- 75
    ∷ 464360 x- 61
    ∷ 572149 x+ 59
    ∷ 173325 x- 68
    ∷ 229104 x- 46
    ∷ 447503 x+ 22
    ∷ 480472 x- 35
    ∷ 994128 x- 64
    ∷ 368642 x- 94
    ∷ 197842 x- 4
    ∷ 303125 x- 65
    ∷ 117452 x+ 55
    ∷ 935302 x- 50
    ∷ 198259 x- 17
    ∷ 273839 x+ 68
    ∷ 371100 x+ 97
    ∷ 963104 x+ 34
    ∷ 639442 x+ 7
    ∷ 276118 x+ 74
    ∷ 379019 x- 50
    ∷ 413728 x+ 90
    ∷ 945845 x- 99
    ∷ 32826 x+ 68
    ∷ 716120 x- 81
    ∷ 687061 x- 46
    ∷ 675369 x+ 95
    ∷ 195716 x- 6
    ∷ 787806 x+ 20
    ∷ 631794 x- 76
    ∷ 940148 x- 80
    ∷ 28537 x- 46
    ∷ 815373 x+ 16
    ∷ 651709 x+ 56
    ∷ 6867 x- 95
    ∷ 816615 x- 65
    ∷ 598080 x- 62
    ∷ 782650 x+ 77
    ∷ 929574 x- 39
    ∷ 269733 x- 10
    ∷ 225456 x+ 14
    ∷ 37778 x+ 86
    ∷ 260253 x+ 42
    ∷ 230470 x- 30
    ∷ 746250 x+ 69
    ∷ 738281 x- 64
    ∷ 23712 x+ 49
    ∷ 858145 x- 78
    ∷ 410137 x- 8
    ∷ 998971 x- 75
    ∷ 472075 x- 28
    ∷ 9767 x- 56
    ∷ 761165 x- 22
    ∷ 42328 x- 81
    ∷ 175480 x+ 83
    ∷ 410253 x- 89
    ∷ 523300 x- 91
    ∷ 109482 x+ 50
    ∷ 616852 x+ 45
    ∷ 52769 x- 36
    ∷ 845597 x- 86
    ∷ 483254 x+ 44
    ∷ 474985 x- 87
    ∷ 650160 x- 86
    ∷ 335316 x+ 82
    ∷ 338085 x+ 87
    ∷ 750936 x+ 22
    ∷ 149724 x+ 7
    ∷ 968265 x- 99
    ∷ 45371 x+ 55
    ∷ 319074 x+ 22
    ∷ 846816 x- 75
    ∷ 610274 x- 54
    ∷ 125934 x+ 35
    ∷ 871728 x+ 56
    ∷ 11964 x+ 19
    ∷ []
