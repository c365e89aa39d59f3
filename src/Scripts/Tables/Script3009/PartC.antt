-- ===== src/Scripts/Tables/Script3009/PartC.antt =====
-- The functions 300 to 419 of sample-assets-small/script-0009.js, a row for each line.
use cache_server_go.Base.{List, [], ◌∷◌}
use cache_server_go.Scripts.Fn.{Fn, ◌x+◌, ◌x-◌}

unfoldable pub fns_3009_c : List Fn
fns_3009_c =
    296538 x- 79
    ∷ 150875 x+ 44
    ∷ 182483 x+ 50
    ∷ 601170 x- 39
    ∷ 116285 x- 53
    ∷ 30412 x+ 81
    ∷ 203350 x+ 83
    ∷ 642379 x- 47
    ∷ 839264 x- 1
    ∷ 636511 x+ 37
    ∷ 82757 x- 59
    ∷ 281197 x+ 74
    ∷ 759670 x+ 40
    ∷ 709739 x+ 29
    ∷ 826459 x- 49
    ∷ 122565 x- 49
    ∷ 370247 x+ 78
    ∷ 409005 x- 68
    ∷ 650165 x- 81
    ∷ 296562 x+ 83
    ∷ 609790 x- 17
    ∷ 302685 x- 4
    ∷ 615242 x+ 27
    ∷ 242914 x- 67
    ∷ 282440 x+ 93
    ∷ 898977 x- 34
    ∷ 509515 x- 49
    ∷ 255463 x- 85
    ∷ 12366 x+ 18
    ∷ 29674 x+ 1
    ∷ 136031 x+ 61
    ∷ 991121 x- 37
    ∷ 954875 x+ 4
    ∷ 292560 x- 87
    ∷ 895992 x- 100
    ∷ 224216 x+ 92
    ∷ 906463 x- 29
    ∷ 124242 x- 98
    ∷ 783067 x+ 16
    ∷ 488749 x- 36
    ∷ 358177 x+ 63
    ∷ 120913 x- 2
    ∷ 795095 x+ 6
    ∷ 719367 x+ 17
    ∷ 572378 x+ 13
    ∷ 639361 x+ 51
    ∷ 9346 x+ 96
    ∷ 326552 x+ 87
    ∷ 927971 x+ 16
    ∷ 709861 x+ 60
    ∷ 637626 x+ 92
    ∷ 833384 x+ 5
    ∷ 250183 x+ 99
    ∷ 501331 x- 29
    ∷ 230499 x+ 88
    ∷ 870036 x- 8
    ∷ 122425 x+ 73
    ∷ 272355 x- 8
    ∷ 64750 x- 37
    ∷ 158869 x+ 38
    ∷ 924643 x- 61
    ∷ 20791 x- 30
    ∷ 101063 x+ 89
    ∷ 795108 x+ 36
    ∷ 546305 x- 27
    ∷ 553011 x- 23
    ∷ 821208 x+ 48
    ∷ 598210 x+ 67
    ∷ 136170 x+ 77
    ∷ 647132 x- 74
    ∷ 513353 x+ 30
    ∷ 924014 x- 3
    ∷ 998315 x- 25
    ∷ 822263 x- 49
    ∷ 354345 x- 74
    ∷ 33277 x+ 29
    ∷ 836644 x+ 20
    ∷ 607772 x- 66
    ∷ 34464 x- 95
    ∷ 54370 x+ 36
    ∷ 5505 x+ 74
    ∷ 398677 x- 51
    ∷ 68869 x+ 36
    ∷ 356372 x+ 71
    ∷ 472420 x- 5
    ∷ 51226 x- 22
    ∷ 276158 x+ 10
    ∷ 408782 x- 26
    ∷ 59486 x- 21
    ∷ 227580 x+ 18
    ∷ 700110 x- 4
    ∷ 930507 x+ 9
    ∷ 567220 x- 35
    ∷ 226572 x- 12
    ∷ 194090 x- 35
    ∷ 989197 x+ 65
    ∷ 812579 x- 56
    ∷ 247602 x- 5
    ∷ 341737 x+ 90
    ∷ 653497 x- 77
    ∷ 902349 x+ 31
    ∷ 280342 x+ 2
    ∷ 979592 x+ 75
    ∷ 721409 x- 23
    ∷ 238637 x- 51
    ∷ 981500 x- 88
    ∷ 600724 x+ 43
    ∷ 740557 x- 58
    ∷ 227766 x- 52
    ∷ 591830 x+ 11
    ∷ 747645 x+ 72
    ∷ 374301 x- 88
    ∷ 50740 x- 55
    ∷ 14301 x+ 87
    ∷ 239789 x+ 5
    ∷ 142715 x+ 0
    ∷ 735251 x- 95
    ∷ 793498 x+ 1
    ∷ 86698 x- 38
    ∷ 550575 x- 20
    ∷ []
