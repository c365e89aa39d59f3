-- ===== src/Scripts/Tables/Script3003/PartA.antt =====
-- The functions 0 to 149 of sample-assets-small/script-0003.js, a row for each line.
use cache_server_go.Base.{List, [], ◌∷◌}
use cache_server_go.Scripts.Fn.{Fn, ◌x+◌, ◌x-◌}

unfoldable pub fns_3003_a : List Fn
fns_3003_a =
    555880 x+ 86
    ∷ 248065 x- 32
    ∷ 569470 x+ 92
    ∷ 906871 x- 87
    ∷ 349587 x- 10
    ∷ 55652 x- 37
    ∷ 684160 x- 63
    ∷ 9629 x+ 95
    ∷ 803296 x- 66
    ∷ 59466 x- 100
    ∷ 357860 x+ 86
    ∷ 870493 x+ 55
    ∷ 940138 x- 98
    ∷ 810445 x- 1
    ∷ 861001 x- 89
    ∷ 121114 x- 46
    ∷ 938334 x+ 38
    ∷ 508233 x- 25
    ∷ 137544 x- 45
    ∷ 439532 x- 40
    ∷ 25149 x+ 59
    ∷ 846719 x- 24
    ∷ 128039 x- 87
    ∷ 117738 x+ 66
    ∷ 123425 x- 86
    ∷ 631913 x+ 15
    ∷ 336019 x- 64
    ∷ 127764 x- 88
    ∷ 878422 x- 94
    ∷ 347231 x+ 24
    ∷ 12017 x+ 50
    ∷ 934845 x- 67
    ∷ 523843 x- 77
    ∷ 375753 x+ 20
    ∷ 572704 x- 84
    ∷ 692771 x- 92
    ∷ 727796 x+ 30
    ∷ 701538 x+ 99
    ∷ 143911 x+ 61
    ∷ 963098 x- 6
    ∷ 441241 x+ 66
    ∷ 50069 x+ 50
    ∷ 900260 x- 22
    ∷ 671689 x+ 66
    ∷ 71128 x- 34
    ∷ 831463 x+ 83
    ∷ 565229 x+ 80
    ∷ 548613 x- 20
    ∷ 196389 x+ 90
    ∷ 244245 x- 51
    ∷ 959400 x+ 25
    ∷ 842446 x- 6
    ∷ 777866 x+ 13
    ∷ 502458 x+ 53
    ∷ 391607 x+ 19
    ∷ 963604 x+ 13
    ∷ 939952 x+ 88
    ∷ 164246 x+ 21
    ∷ 33341 x- 32
    ∷ 841991 x+ 13
    ∷ 955123 x- 17
    ∷ 418839 x+ 88
    ∷ 848920 x+ 0
    ∷ 821581 x- 94
    ∷ 717487 x- 91
    ∷ 949464 x- 14
    ∷ 224286 x- 62
    ∷ 611505 x+ 21
    ∷ 18105 x+ 47
    ∷ 686814 x- 72
    ∷ 253274 x- 22
    ∷ 342693 x+ 38
    ∷ 992374 x+ 28
    ∷ 857142 x- 68
    ∷ 567605 x+ 50
    ∷ 136229 x- 22
    ∷ 519386 x- 98
    ∷ 525226 x- 95
    ∷ 349544 x- 97
    ∷ 808138 x+ 42
    ∷ 919986 x+ 50
    ∷ 824086 x- 72
    ∷ 544587 x- 69
    ∷ 194356 x+ 50
    ∷ 230410 x+ 23
    ∷ 978323 x- 26
    ∷ 485383 x+ 70
    ∷ 838668 x+ 77
    ∷ 545966 x- 44
    ∷ 752989 x- 34
    ∷ 858940 x- 31
    ∷ 559094 x+ 81
    ∷ 442389 x+ 89
    ∷ 901378 x- 5
    ∷ 936577 x- 85
    ∷ 944065 x- 97
    ∷ 690629 x+ 18
    ∷ 390998 x- 45
    ∷ 405256 x+ 6
    ∷ 784948 x+ 76
    ∷ 10755 x- 59
    ∷ 303083 x- 38
    ∷ 797831 x+ 3
    ∷ 668465 x+ 89
    ∷ 630103 x+ 85
    ∷ 58633 x+ 74
    ∷ 194642 x+ 38
    ∷ 799387 x- 38
    ∷ 341494 x+ 6
    ∷ 73471 x- 71
    ∷ 577495 x- 26
    ∷ 837782 x- 21
    ∷ 834394 x+ 85
    ∷ 742320 x+ 18
    ∷ 985392 x+ 23
    ∷ 378205 x+ 22
    ∷ 655607 x+ 44
    ∷ 271364 x+ 67
    ∷ 406120 x- 56
    ∷ 568875 x+ 94
    ∷ 861412 x+ 95
    ∷ 470906 x+ 46
    ∷ 348474 x+ 8
    ∷ 986896 x- 54
    ∷ 876635 x- 54
    ∷ 310840 x- 2
    ∷ 523411 x+ 12
    ∷ 748150 x+ 79
    ∷ 530854 x+ 37
    ∷ 805721 x- 93
    ∷ 86384 x- 55
    ∷ 612783 x+ 14
    ∷ 912147 x- 58
    ∷ 337218 x- 3
    ∷ 371605 x- 81
    ∷ 167960 x- 49
    ∷ 314829 x+ 48
    ∷ 770388 x- 32
    ∷ 49202 x- 87
    ∷ 658800 x+ 82
    ∷ 236038 x- 12
    ∷ 733678 x+ 39
    ∷ 384486 x+ 10
    ∷ 201411 x+ 54
    ∷ 425484 x+ 13
    ∷ 698393 x- 12
    ∷ 406823 x- 76
    ∷ 98960 x+ 90
    ∷ 235836 x- 72
    ∷ 443733 x- 42
    ∷ []
