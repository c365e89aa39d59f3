-- ===== src/Scripts/Tables/Script3017/PartA.antt =====
-- The functions 0 to 149 of sample-assets-small/script-0017.js, a row for each line.
use cache_server_go.Base.{List, [], ◌∷◌}
use cache_server_go.Scripts.Fn.{Fn, ◌x+◌, ◌x-◌}

unfoldable pub fns_3017_a : List Fn
fns_3017_a =
    662426 x- 88
    ∷ 507488 x+ 82
    ∷ 617671 x+ 86
    ∷ 541331 x- 9
    ∷ 699971 x+ 90
    ∷ 691566 x- 8
    ∷ 968167 x- 5
    ∷ 372586 x+ 74
    ∷ 157448 x+ 23
    ∷ 318522 x- 76
    ∷ 60482 x+ 73
    ∷ 262518 x- 53
    ∷ 614890 x+ 12
    ∷ 897767 x- 33
    ∷ 186694 x+ 47
    ∷ 59884 x+ 17
    ∷ 610453 x+ 18
    ∷ 922258 x+ 88
    ∷ 654960 x+ 8
    ∷ 109382 x- 44
    ∷ 375554 x+ 48
    ∷ 128741 x- 59
    ∷ 268718 x+ 72
    ∷ 103229 x- 63
    ∷ 950616 x+ 57
    ∷ 974355 x+ 69
    ∷ 403076 x- 90
    ∷ 892641 x+ 81
    ∷ 291996 x+ 60
    ∷ 656503 x- 17
    ∷ 482623 x+ 72
    ∷ 806691 x- 73
    ∷ 83689 x- 94
    ∷ 16483 x+ 43
    ∷ 623617 x+ 81
    ∷ 245630 x+ 41
    ∷ 87800 x- 48
    ∷ 221437 x- 2
    ∷ 43981 x- 2
    ∷ 731868 x- 61
    ∷ 198819 x+ 83
    ∷ 129800 x+ 58
    ∷ 409924 x- 54
    ∷ 938914 x- 55
    ∷ 252752 x+ 73
    ∷ 559198 x+ 22
    ∷ 424126 x+ 44
    ∷ 947869 x+ 46
    ∷ 2682 x+ 89
    ∷ 362828 x+ 44
    ∷ 374216 x- 33
    ∷ 17653 x- 98
    ∷ 171464 x+ 61
    ∷ 276214 x+ 15
    ∷ 405947 x- 43
    ∷ 228685 x- 34
    ∷ 756978 x- 87
    ∷ 848463 x- 46
    ∷ 937984 x- 78
    ∷ 869026 x+ 22
    ∷ 936252 x+ 26
    ∷ 712101 x- 31
    ∷ 958962 x+ 26
    ∷ 830578 x+ 100
    ∷ 666190 x+ 62
    ∷ 925456 x- 49
    ∷ 929848 x- 9
    ∷ 89930 x+ 58
    ∷ 309442 x- 54
    ∷ 959113 x- 94
    ∷ 93962 x+ 6
    ∷ 827436 x+ 27
    ∷ 280597 x- 78
    ∷ 747491 x- 77
    ∷ 957287 x- 92
    ∷ 427892 x- 80
    ∷ 547895 x+ 45
    ∷ 159777 x+ 24
    ∷ 583730 x- 100
    ∷ 739400 x+ 61
    ∷ 935613 x- 88
    ∷ 179505 x+ 50
    ∷ 29023 x- 45
    ∷ 389264 x+ 3
    ∷ 766059 x+ 98
    ∷ 684904 x- 11
    ∷ 727180 x- 58
    ∷ 759638 x- 60
    ∷ 857138 x- 88
    ∷ 968535 x+ 33
    ∷ 889408 x- 82
    ∷ 943741 x+ 35
    ∷ 868947 x+ 47
    ∷ 840657 x+ 28
    ∷ 525279 x- 40
    ∷ 371091 x- 15
    ∷ 459335 x- 30
    ∷ 446887 x- 95
    ∷ 340302 x+ 10
    ∷ 767872 x+ 66
    ∷ 158826 x- 12
    ∷ 470291 x- 71
    ∷ 808794 x+ 45
    ∷ 591078 x+ 78
    ∷ 893714 x- 60
    ∷ 304425 x- 74
    ∷ 846301 x+ 80
    ∷ 443739 x- 89
    ∷ 642914 x- 23
    ∷ 471497 x- 42
    ∷ 79474 x- 28
    ∷ 459389 x+ 14
    ∷ 450604 x+ 57
    ∷ 206432 x- 94
    ∷ 673236 x- 75
    ∷ 717271 x+ 2
    ∷ 789177 x- 26
    ∷ 398964 x+ 53
    ∷ 905108 x+ 46
    ∷ 336811 x- 80
    ∷ 172052 x- 34
    ∷ 887515 x- 67
    ∷ 908229 x+ 95
    ∷ 230100 x+ 6
    ∷ 662640 x+ 68
    ∷ 547784 x- 84
    ∷ 190940 x+ 98
    ∷ 352583 x+ 70
    ∷ 270386 x+ 6
    ∷ 315985 x+ 16
    ∷ 479832 x- 85
    ∷ 705595 x+ 69
    ∷ 315088 x- 81
    ∷ 474890 x- 63
    ∷ 320307 x- 37
    ∷ 644284 x- 16
    ∷ 828485 x- 16
    ∷ 404246 x- 76
    ∷ 470634 x+ 56
    ∷ 277731 x- 80
    ∷ 108511 x+ 53
    ∷ 798242 x+ 44
    ∷ 196382 x+ 62
    ∷ 786529 x+ 84
    ∷ 744779 x+ 77
    ∷ 500501 x+ 3
    ∷ 742848 x- 59
    ∷ 825631 x- 99
    ∷ 130307 x+ 39
    ∷ 418646 x- 54
    ∷ []
