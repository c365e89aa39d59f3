-- ===== src/Scripts/Tables/Script3010/PartA.antt =====
-- The functions 0 to 149 of sample-assets-small/script-0010.js, a row for each line.
use cache_server_go.Base.{List, [], ◌∷◌}
use cache_server_go.Scripts.Fn.{Fn, ◌x+◌, ◌x-◌}

unfoldable pub fns_3010_a : List Fn
fns_3010_a =
    646525 x+ 42
    ∷ 361036 x+ 84
    ∷ 373859 x+ 35
    ∷ 567221 x- 64
    ∷ 436354 x+ 7
    ∷ 828111 x+ 0
    ∷ 675739 x- 55
    ∷ 835528 x- 42
    ∷ 75525 x+ 1
    ∷ 251835 x+ 55
    ∷ 548262 x- 60
    ∷ 142023 x- 93
    ∷ 44564 x+ 66
    ∷ 757682 x- 43
    ∷ 669645 x- 66
    ∷ 585677 x- 57
    ∷ 662254 x+ 11
    ∷ 592108 x- 71
    ∷ 310753 x- 49
    ∷ 117300 x+ 16
    ∷ 333957 x+ 85
    ∷ 70596 x+ 59
    ∷ 408715 x+ 12
    ∷ 470816 x+ 48
    ∷ 450905 x+ 41
    ∷ 237530 x+ 31
    ∷ 173711 x+ 74
    ∷ 481510 x+ 60
    ∷ 972346 x+ 81
    ∷ 258781 x- 77
    ∷ 306896 x+ 16
    ∷ 44552 x+ 19
    ∷ 569984 x- 40
    ∷ 291754 x+ 68
    ∷ 886458 x- 90
    ∷ 279803 x+ 38
    ∷ 263321 x+ 84
    ∷ 515988 x+ 9
    ∷ 813556 x+ 62
    ∷ 486030 x- 57
    ∷ 254124 x+ 85
    ∷ 360701 x- 57
    ∷ 917845 x+ 29
    ∷ 928426 x+ 47
    ∷ 843421 x- 87
    ∷ 822745 x+ 18
    ∷ 271138 x+ 45
    ∷ 909722 x- 19
    ∷ 227746 x+ 7
    ∷ 7542 x- 20
    ∷ 338068 x- 31
    ∷ 744215 x- 26
    ∷ 45575 x- 63
    ∷ 255153 x+ 1
    ∷ 97086 x+ 17
    ∷ 191634 x- 45
    ∷ 46404 x- 95
    ∷ 848345 x- 97
    ∷ 886227 x- 60
    ∷ 333704 x+ 66
    ∷ 790634 x- 55
    ∷ 575953 x- 85
    ∷ 418751 x- 51
    ∷ 840851 x+ 79
    ∷ 47956 x- 67
    ∷ 378059 x+ 76
    ∷ 526001 x+ 44
    ∷ 228399 x- 32
    ∷ 69564 x- 75
    ∷ 967629 x- 22
    ∷ 49655 x+ 88
    ∷ 405525 x+ 22
    ∷ 178717 x+ 53
    ∷ 484881 x- 95
    ∷ 579117 x+ 47
    ∷ 824615 x- 20
    ∷ 577992 x+ 65
    ∷ 663693 x- 88
    ∷ 271524 x+ 28
    ∷ 902458 x+ 42
    ∷ 416930 x+ 14
    ∷ 715739 x+ 27
    ∷ 666512 x+ 42
    ∷ 306714 x- 95
    ∷ 2181 x- 45
    ∷ 63767 x+ 98
    ∷ 116851 x- 44
    ∷ 145911 x+ 19
    ∷ 357868 x+ 55
    ∷ 548607 x+ 8
    ∷ 367717 x- 43
    ∷ 861357 x- 53
    ∷ 461203 x+ 97
    ∷ 872729 x- 87
    ∷ 120852 x+ 81
    ∷ 796524 x- 68
    ∷ 150737 x- 32
    ∷ 223997 x- 15
    ∷ 679257 x- 34
    ∷ 642765 x- 44
    ∷ 322375 x- 47
    ∷ 986493 x- 1
    ∷ 788202 x+ 19
    ∷ 283826 x- 8
    ∷ 403698 x- 88
    ∷ 986459 x+ 5
    ∷ 979975 x- 6
    ∷ 936308 x+ 25
    ∷ 80260 x- 20
    ∷ 628347 x+ 78
    ∷ 422720 x- 27
    ∷ 96255 x- 20
    ∷ 781128 x+ 32
    ∷ 213830 x+ 53
    ∷ 222281 x+ 83
    ∷ 138151 x+ 55
    ∷ 277990 x+ 66
    ∷ 919668 x+ 2
    ∷ 441047 x+ 93
    ∷ 118117 x- 9
    ∷ 846528 x- 18
    ∷ 124793 x- 86
    ∷ 116109 x+ 49
    ∷ 580745 x- 76
    ∷ 8903 x+ 27
    ∷ 971586 x- 45
    ∷ 225128 x- 24
    ∷ 387715 x- 11
    ∷ 221681 x- 35
    ∷ 153718 x+ 72
    ∷ 984154 x- 19
    ∷ 292738 x+ 22
    ∷ 9087 x+ 45
    ∷ 832591 x- 91
    ∷ 293617 x+ 82
    ∷ 919509 x+ 22
    ∷ 243382 x+ 80
    ∷ 935960 x- 24
    ∷ 617455 x+ 24
    ∷ 330450 x+ 36
    ∷ 810737 x+ 39
    ∷ 827345 x+ 28
    ∷ 346628 x- 25
    ∷ 41385 x+ 1
    ∷ 717448 x- 40
    ∷ 769894 x+ 9
    ∷ 137462 x- 27
    ∷ 618267 x- 74
    ∷ 838311 x+ 60
    ∷ 806503 x- 87
    ∷ []
