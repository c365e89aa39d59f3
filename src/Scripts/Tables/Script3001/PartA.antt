-- ===== src/Scripts/Tables/Script3001/PartA.antt =====
-- The functions 0 to 149 of sample-assets-small/script-0001.js, a row for each line.
use cache_server_go.Base.{List, [], ◌∷◌}
use cache_server_go.Scripts.Fn.{Fn, ◌x+◌, ◌x-◌}

unfoldable pub fns_3001_a : List Fn
fns_3001_a =
    291374 x+ 13
    ∷ 145792 x- 38
    ∷ 973766 x- 9
    ∷ 676669 x- 15
    ∷ 475840 x- 2
    ∷ 910261 x+ 54
    ∷ 637663 x- 46
    ∷ 861927 x+ 53
    ∷ 649766 x- 93
    ∷ 787305 x+ 30
    ∷ 23588 x+ 13
    ∷ 860086 x+ 98
    ∷ 956379 x- 55
    ∷ 260555 x+ 15
    ∷ 425252 x- 13
    ∷ 900067 x+ 25
    ∷ 198249 x- 34
    ∷ 739616 x+ 87
    ∷ 165531 x+ 8
    ∷ 604548 x+ 79
    ∷ 84829 x- 25
    ∷ 421678 x- 5
    ∷ 970930 x+ 97
    ∷ 128692 x+ 0
    ∷ 866486 x+ 57
    ∷ 268647 x+ 59
    ∷ 579745 x- 63
    ∷ 613232 x- 22
    ∷ 172484 x+ 78
    ∷ 715959 x- 90
    ∷ 604256 x+ 41
    ∷ 646292 x- 16
    ∷ 193366 x- 93
    ∷ 146899 x+ 81
    ∷ 617295 x- 46
    ∷ 66289 x- 33
    ∷ 229836 x- 3
    ∷ 771164 x- 21
    ∷ 390838 x+ 21
    ∷ 135468 x- 5
    ∷ 312298 x- 43
    ∷ 395356 x- 13
    ∷ 984806 x- 20
    ∷ 228934 x- 32
    ∷ 659551 x+ 43
    ∷ 371296 x+ 48
    ∷ 839994 x- 1
    ∷ 404075 x- 38
    ∷ 374720 x- 77
    ∷ 571167 x- 49
    ∷ 745897 x+ 79
    ∷ 56980 x+ 60
    ∷ 962111 x- 11
    ∷ 172105 x+ 77
    ∷ 345272 x- 18
    ∷ 787903 x- 24
    ∷ 498300 x+ 94
    ∷ 28227 x+ 72
    ∷ 170572 x- 57
    ∷ 548787 x- 76
    ∷ 982055 x- 82
    ∷ 52113 x+ 78
    ∷ 695608 x- 93
    ∷ 234942 x- 49
    ∷ 626294 x- 72
    ∷ 16352 x+ 2
    ∷ 132976 x- 12
    ∷ 998020 x- 58
    ∷ 208997 x- 33
    ∷ 589290 x- 51
    ∷ 732211 x- 55
    ∷ 776453 x- 36
    ∷ 77590 x+ 43
    ∷ 817470 x- 86
    ∷ 726589 x- 15
    ∷ 765141 x- 66
    ∷ 663582 x- 69
    ∷ 497319 x- 28
    ∷ 404529 x+ 70
    ∷ 182869 x- 77
    ∷ 265411 x+ 45
    ∷ 196240 x+ 37
    ∷ 664956 x+ 35
    ∷ 100803 x+ 46
    ∷ 202812 x- 80
    ∷ 45720 x- 91
    ∷ 38471 x+ 94
    ∷ 309296 x+ 89
    ∷ 408294 x+ 84
    ∷ 420199 x- 56
    ∷ 641499 x+ 34
    ∷ 928870 x+ 62
    ∷ 146724 x+ 41
    ∷ 361528 x+ 70
    ∷ 762193 x+ 2
    ∷ 450792 x- 98
    ∷ 809652 x- 95
    ∷ 104925 x+ 83
    ∷ 526967 x+ 9
    ∷ 4794 x- 78
    ∷ 989652 x+ 23
    ∷ 891731 x- 77
    ∷ 937977 x- 33
    ∷ 165585 x+ 57
    ∷ 223673 x+ 53
    ∷ 534518 x+ 10
    ∷ 632043 x+ 43
    ∷ 81962 x+ 93
    ∷ 865633 x- 99
    ∷ 919507 x+ 34
    ∷ 828896 x+ 99
    ∷ 580158 x- 39
    ∷ 697205 x+ 26
    ∷ 851363 x- 33
    ∷ 4448 x+ 64
    ∷ 772395 x+ 98
    ∷ 850028 x- 13
    ∷ 487086 x+ 84
    ∷ 579407 x+ 39
    ∷ 215779 x+ 27
    ∷ 454994 x+ 26
    ∷ 786239 x- 20
    ∷ 566383 x- 43
    ∷ 530937 x+ 41
    ∷ 574694 x+ 47
    ∷ 193122 x+ 58
    ∷ 470062 x+ 2
    ∷ 913410 x+ 75
    ∷ 507769 x+ 26
    ∷ 280030 x+ 57
    ∷ 747689 x- 98
    ∷ 569227 x- 85
    ∷ 559407 x- 86
    ∷ 223608 x+ 68
    ∷ 673134 x+ 43
    ∷ 807970 x- 41
    ∷ 846669 x- 21
    ∷ 752674 x- 60
    ∷ 913543 x- 50
    ∷ 479528 x+ 41
    ∷ 769329 x- 24
    ∷ 902537 x- 93
    ∷ 786919 x+ 29
    ∷ 232482 x+ 17
    ∷ 856009 x- 72
    ∷ 275393 x- 66
    ∷ 318317 x- 21
    ∷ 215370 x+ 77
    ∷ 86455 x+ 22
    ∷ 314014 x+ 81
    ∷ []
