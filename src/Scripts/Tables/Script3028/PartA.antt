-- ===== src/Scripts/Tables/Script3028/PartA.antt =====
-- The functions 0 to 149 of sample-assets-small/script-0028.js, a row for each line.
use cache_server_go.Base.{List, [], ◌∷◌}
use cache_server_go.Scripts.Fn.{Fn, ◌x+◌, ◌x-◌}

unfoldable pub fns_3028_a : List Fn
fns_3028_a =
    665161 x+ 66
    ∷ 203040 x+ 0
    ∷ 376259 x- 14
    ∷ 574188 x- 23
    ∷ 535799 x+ 39
    ∷ 858871 x- 18
    ∷ 944203 x+ 5
    ∷ 943441 x- 97
    ∷ 690 x- 15
    ∷ 776359 x- 27
    ∷ 527486 x+ 69
    ∷ 83930 x- 14
    ∷ 793455 x+ 16
    ∷ 243567 x- 52
    ∷ 281891 x- 17
    ∷ 387352 x+ 16
    ∷ 166511 x+ 100
    ∷ 636021 x- 72
    ∷ 287343 x- 34
    ∷ 859299 x- 32
    ∷ 55475 x- 53
    ∷ 899909 x- 41
    ∷ 696099 x- 58
    ∷ 662858 x- 13
    ∷ 279453 x+ 69
    ∷ 645178 x- 61
    ∷ 859552 x- 55
    ∷ 722985 x- 32
    ∷ 394508 x- 86
    ∷ 402600 x+ 0
    ∷ 140082 x+ 9
    ∷ 708971 x+ 48
    ∷ 281808 x+ 53
    ∷ 224546 x- 80
    ∷ 914308 x- 74
    ∷ 168206 x+ 11
    ∷ 536835 x+ 20
    ∷ 246612 x- 27
    ∷ 191886 x+ 29
    ∷ 653849 x- 24
    ∷ 535848 x- 13
    ∷ 829549 x+ 32
    ∷ 695620 x- 67
    ∷ 58005 x- 93
    ∷ 501517 x- 59
    ∷ 550823 x+ 91
    ∷ 213319 x- 1
    ∷ 642128 x+ 19
    ∷ 672984 x- 99
    ∷ 463831 x+ 82
    ∷ 829880 x- 32
    ∷ 185052 x+ 52
    ∷ 16446 x- 92
    ∷ 909546 x- 95
    ∷ 957185 x+ 97
    ∷ 63 x+ 97
    ∷ 729519 x- 86
    ∷ 234703 x+ 97
    ∷ 815205 x- 42
    ∷ 219788 x+ 62
    ∷ 209269 x+ 60
    ∷ 941240 x- 59
    ∷ 172603 x+ 22
    ∷ 845553 x+ 26
    ∷ 815863 x- 97
    ∷ 454206 x+ 31
    ∷ 493549 x- 8
    ∷ 639132 x- 28
    ∷ 878693 x+ 9
    ∷ 782933 x- 66
    ∷ 752659 x- 45
    ∷ 989633 x+ 4
    ∷ 595319 x- 38
    ∷ 53374 x- 20
    ∷ 757070 x- 59
    ∷ 702478 x+ 92
    ∷ 980313 x- 94
    ∷ 681660 x+ 90
    ∷ 682039 x- 96
    ∷ 700481 x- 54
    ∷ 485995 x+ 13
    ∷ 816253 x- 1
    ∷ 317220 x+ 8
    ∷ 43281 x+ 29
    ∷ 521991 x+ 95
    ∷ 855800 x+ 5
    ∷ 879453 x+ 88
    ∷ 412748 x- 16
    ∷ 282913 x- 33
    ∷ 555977 x- 58
    ∷ 801656 x- 58
    ∷ 605080 x+ 15
    ∷ 12853 x- 13
    ∷ 56504 x- 63
    ∷ 725697 x- 92
    ∷ 970714 x+ 34
    ∷ 752113 x- 7
    ∷ 667829 x- 12
    ∷ 280639 x+ 32
    ∷ 593144 x- 94
    ∷ 943041 x+ 91
    ∷ 72867 x+ 82
    ∷ 968659 x+ 98
    ∷ 343115 x+ 44
    ∷ 542955 x- 67
    ∷ 227311 x- 29
    ∷ 585620 x- 22
    ∷ 253932 x+ 77
    ∷ 407494 x- 8
    ∷ 799630 x+ 0
    ∷ 536742 x+ 61
    ∷ 963362 x+ 43
    ∷ 909006 x+ 12
    ∷ 296517 x+ 85
    ∷ 32552 x- 30
    ∷ 583565 x+ 55
    ∷ 243102 x+ 18
    ∷ 479885 x- 54
    ∷ 437054 x+ 35
    ∷ 413414 x- 20
    ∷ 167188 x- 84
    ∷ 156472 x+ 66
    ∷ 693613 x- 7
    ∷ 796277 x+ 31
    ∷ 167500 x- 14
    ∷ 439162 x- 66
    ∷ 138599 x+ 97
    ∷ 789519 x- 60
    ∷ 157237 x- 63
    ∷ 102044 x+ 92
    ∷ 68283 x- 15
    ∷ 938911 x+ 17
    ∷ 946067 x- 59
    ∷ 619093 x+ 23
    ∷ 554894 x- 10
    ∷ 111330 x+ 63
    ∷ 118533 x- 10
    ∷ 675534 x+ 70
    ∷ 6381 x- 74
    ∷ 366851 x+ 77
    ∷ 499429 x+ 8
    ∷ 63242 x+ 93
    ∷ 272167 x+ 89
    ∷ 920766 x+ 48
    ∷ 120339 x- 3
    ∷ 679694 x+ 19
    ∷ 633659 x+ 17
    ∷ 385415 x+ 44
    ∷ 891076 x+ 85
    ∷ 16964 x- 77
    ∷ []
