-- ===== src/Scripts/Tables/Script3015/PartA.antt =====
-- The functions 0 to 149 of sample-assets-small/script-0015.js, a row for each line.
use cache_server_go.Base.{List, [], ◌∷◌}
use cache_server_go.Scripts.Fn.{Fn, ◌x+◌, ◌x-◌}

unfoldable pub fns_3015_a : List Fn
fns_3015_a =
    724098 x+ 81
    ∷ 600230 x- 90
    ∷ 58975 x+ 16
    ∷ 723800 x+ 65
    ∷ 388261 x+ 31
    ∷ 492738 x+ 47
    ∷ 337371 x- 28
    ∷ 260596 x+ 100
    ∷ 395538 x+ 10
    ∷ 568993 x- 50
    ∷ 141713 x+ 56
    ∷ 854691 x- 4
    ∷ 436375 x+ 83
    ∷ 375692 x+ 33
    ∷ 945051 x+ 25
    ∷ 920674 x- 21
    ∷ 179128 x- 45
    ∷ 557474 x+ 13
    ∷ 364590 x+ 81
    ∷ 568179 x- 7
    ∷ 394124 x- 68
    ∷ 211207 x- 70
    ∷ 16673 x- 69
    ∷ 228999 x- 57
    ∷ 497506 x- 48
    ∷ 399672 x- 33
    ∷ 213634 x- 62
    ∷ 153406 x- 88
    ∷ 645943 x- 13
    ∷ 657921 x- 22
    ∷ 729834 x- 72
    ∷ 738981 x- 58
    ∷ 624457 x+ 23
    ∷ 381425 x+ 77
    ∷ 784667 x+ 48
    ∷ 583498 x- 48
    ∷ 324244 x+ 56
    ∷ 214165 x- 76
    ∷ 817414 x+ 83
    ∷ 618804 x- 11
    ∷ 262765 x+ 72
    ∷ 389175 x- 17
    ∷ 448843 x+ 97
    ∷ 917587 x- 18
    ∷ 642995 x+ 88
    ∷ 123344 x+ 18
    ∷ 116518 x+ 95
    ∷ 191591 x- 70
    ∷ 901145 x+ 15
    ∷ 937299 x- 25
    ∷ 242754 x- 90
    ∷ 427979 x- 75
    ∷ 114694 x+ 93
    ∷ 665694 x- 70
    ∷ 693148 x- 70
    ∷ 283034 x+ 20
    ∷ 806889 x+ 64
    ∷ 443017 x+ 31
    ∷ 779070 x- 9
    ∷ 270998 x+ 17
    ∷ 527560 x- 26
    ∷ 936146 x+ 59
    ∷ 367808 x- 24
    ∷ 662888 x+ 9
    ∷ 4828 x+ 83
    ∷ 475809 x- 96
    ∷ 749529 x- 65
    ∷ 405203 x- 13
    ∷ 63970 x+ 68
    ∷ 427115 x+ 49
    ∷ 850496 x+ 17
    ∷ 122653 x- 96
    ∷ 775670 x- 70
    ∷ 121878 x- 53
    ∷ 621508 x- 71
    ∷ 451141 x- 38
    ∷ 342206 x+ 25
    ∷ 115393 x+ 66
    ∷ 496573 x+ 69
    ∷ 73063 x- 9
    ∷ 80079 x- 55
    ∷ 587627 x+ 75
    ∷ 628288 x- 48
    ∷ 157848 x+ 52
    ∷ 825636 x- 24
    ∷ 253107 x- 56
    ∷ 681119 x+ 73
    ∷ 440516 x- 83
    ∷ 157112 x+ 12
    ∷ 786206 x- 88
    ∷ 999298 x+ 91
    ∷ 2113 x+ 59
    ∷ 635040 x+ 17
    ∷ 408310 x+ 24
    ∷ 927787 x- 85
    ∷ 355116 x- 46
    ∷ 248442 x+ 91
    ∷ 906756 x+ 4
    ∷ 161972 x+ 81
    ∷ 234109 x- 21
    ∷ 839085 x+ 16
    ∷ 937570 x+ 89
    ∷ 439912 x+ 31
    ∷ 449884 x+ 70
    ∷ 265021 x- 7
    ∷ 797786 x- 98
    ∷ 628950 x- 86
    ∷ 234857 x+ 89
    ∷ 873785 x- 48
    ∷ 344131 x- 70
    ∷ 433519 x- 68
    ∷ 629125 x- 8
    ∷ 723392 x+ 47
    ∷ 855643 x- 16
    ∷ 473623 x+ 62
    ∷ 230649 x- 34
    ∷ 848050 x- 93
    ∷ 738052 x+ 16
    ∷ 554577 x+ 81
    ∷ 807886 x+ 16
    ∷ 29971 x- 70
    ∷ 526949 x+ 26
    ∷ 611586 x+ 39
    ∷ 983579 x+ 28
    ∷ 136005 x+ 62
    ∷ 17136 x+ 24
    ∷ 400730 x- 86
    ∷ 184583 x+ 11
    ∷ 972823 x+ 79
    ∷ 174439 x+ 27
    ∷ 494520 x+ 60
    ∷ 941933 x+ 18
    ∷ 551474 x+ 22
    ∷ 65370 x+ 80
    ∷ 219866 x- 57
    ∷ 227588 x- 80
    ∷ 711416 x+ 39
    ∷ 837848 x- 12
    ∷ 917348 x- 9
    ∷ 608998 x+ 41
    ∷ 380169 x+ 92
    ∷ 853912 x- 95
    ∷ 403914 x+ 42
    ∷ 962309 x+ 47
    ∷ 12304 x+ 24
    ∷ 540010 x- 91
    ∷ 997608 x+ 65
    ∷ 733052 x- 74
    ∷ 440557 x+ 68
    ∷ 111777 x- 47
    ∷ []
