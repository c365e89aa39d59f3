-- ===== src/Scripts/Tables/Script3027/PartA.antt =====
-- The functions 0 to 149 of sample-assets-small/script-0027.js, a row for each line.
use cache_server_go.Base.{List, [], ◌∷◌}
use cache_server_go.Scripts.Fn.{Fn, ◌x+◌, ◌x-◌}

unfoldable pub fns_3027_a : List Fn
fns_3027_a =
    184870 x+ 9
    ∷ 43550 x- 54
    ∷ 479086 x+ 2
    ∷ 823068 x+ 3
    ∷ 725105 x+ 32
    ∷ 601288 x- 6
    ∷ 155020 x+ 68
    ∷ 939977 x+ 41
    ∷ 192761 x+ 94
    ∷ 683532 x+ 93
    ∷ 137353 x- 24
    ∷ 824888 x+ 33
    ∷ 339346 x- 41
    ∷ 572753 x- 99
    ∷ 645205 x- 68
    ∷ 369322 x+ 28
    ∷ 731799 x+ 6
    ∷ 634060 x- 57
    ∷ 624920 x- 8
    ∷ 313724 x- 83
    ∷ 650650 x+ 53
    ∷ 95821 x+ 4
    ∷ 259700 x+ 96
    ∷ 206066 x- 40
    ∷ 495361 x- 62
    ∷ 114219 x- 14
    ∷ 269236 x+ 16
    ∷ 481354 x- 24
    ∷ 546978 x+ 40
    ∷ 778574 x+ 87
    ∷ 79658 x- 58
    ∷ 142912 x+ 91
    ∷ 522219 x- 45
    ∷ 309999 x+ 77
    ∷ 37673 x+ 58
    ∷ 375511 x+ 6
    ∷ 682300 x+ 88
    ∷ 406576 x- 41
    ∷ 438464 x- 14
    ∷ 877781 x+ 36
    ∷ 934738 x+ 22
    ∷ 655818 x- 78
    ∷ 19520 x+ 84
    ∷ 396707 x+ 13
    ∷ 509839 x- 75
    ∷ 103993 x+ 3
    ∷ 612888 x- 96
    ∷ 925150 x+ 34
    ∷ 16218 x+ 34
    ∷ 412674 x+ 19
    ∷ 748887 x+ 58
    ∷ 596286 x+ 92
    ∷ 970077 x- 15
    ∷ 509746 x+ 29
    ∷ 111359 x+ 11
    ∷ 433407 x+ 60
    ∷ 442921 x- 39
    ∷ 331253 x+ 51
    ∷ 254284 x+ 87
    ∷ 139224 x- 62
    ∷ 458996 x- 68
    ∷ 119361 x- 92
    ∷ 490244 x+ 4
    ∷ 937758 x+ 36
    ∷ 894032 x- 82
    ∷ 210608 x- 30
    ∷ 231537 x- 79
    ∷ 325305 x- 95
    ∷ 739270 x+ 9
    ∷ 74057 x- 65
    ∷ 105757 x+ 24
    ∷ 258409 x+ 11
    ∷ 351289 x- 15
    ∷ 619335 x+ 89
    ∷ 950734 x+ 9
    ∷ 417271 x+ 58
    ∷ 35465 x- 24
    ∷ 304928 x+ 60
    ∷ 376916 x+ 16
    ∷ 162203 x+ 96
    ∷ 213280 x+ 16
    ∷ 614406 x- 79
    ∷ 735960 x- 93
    ∷ 79730 x- 95
    ∷ 738119 x- 60
    ∷ 294561 x+ 56
    ∷ 454545 x+ 57
    ∷ 234503 x+ 100
    ∷ 394617 x+ 32
    ∷ 434581 x- 23
    ∷ 272583 x+ 16
    ∷ 7560 x- 50
    ∷ 484948 x- 22
    ∷ 979987 x- 86
    ∷ 921262 x+ 74
    ∷ 583032 x+ 46
    ∷ 753729 x+ 83
    ∷ 877089 x+ 98
    ∷ 924722 x+ 83
    ∷ 761129 x+ 66
    ∷ 79985 x+ 89
    ∷ 412959 x+ 98
    ∷ 414927 x+ 42
    ∷ 786359 x+ 78
    ∷ 28013 x+ 66
    ∷ 540010 x- 89
    ∷ 761910 x+ 15
    ∷ 838064 x- 87
    ∷ 278953 x- 9
    ∷ 625000 x+ 96
    ∷ 506017 x- 7
    ∷ 280837 x+ 63
    ∷ 910119 x- 44
    ∷ 750469 x+ 99
    ∷ 366946 x+ 23
    ∷ 781209 x+ 43
    ∷ 904390 x- 67
    ∷ 88917 x+ 66
    ∷ 593681 x+ 44
    ∷ 104766 x- 20
    ∷ 815381 x+ 78
    ∷ 987539 x+ 2
    ∷ 356142 x- 94
    ∷ 712552 x- 46
    ∷ 928131 x- 69
    ∷ 893679 x- 3
    ∷ 908556 x+ 44
    ∷ 98871 x+ 38
    ∷ 931012 x- 21
    ∷ 409667 x+ 18
    ∷ 14842 x- 86
    ∷ 100278 x+ 70
    ∷ 592956 x- 92
    ∷ 15610 x- 34
    ∷ 721899 x+ 64
    ∷ 604879 x- 4
    ∷ 987971 x- 63
    ∷ 61407 x+ 90
    ∷ 587634 x- 49
    ∷ 146981 x+ 66
    ∷ 663671 x- 28
    ∷ 778799 x+ 40
    ∷ 386309 x+ 70
    ∷ 439278 x- 48
    ∷ 144938 x+ 56
    ∷ 726640 x+ 16
    ∷ 209527 x- 81
    ∷ 283898 x- 23
    ∷ 432772 x+ 11
    ∷ 298376 x- 75
    ∷ []
