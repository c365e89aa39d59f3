-- ===== src/Scripts/Tables/Script3025/PartA.antt =====
-- The functions 0 to 149 of sample-assets-small/script-0025.js, a row for each line.
use cache_server_go.Base.{List, [], ◌∷◌}
use cache_server_go.Scripts.Fn.{Fn, ◌x+◌, ◌x-◌}

unfoldable pub fns_3025_a : List Fn
fns_3025_a =
    52512 x- 22
    ∷ 774066 x- 49
    ∷ 540860 x+ 87
    ∷ 378705 x+ 88
    ∷ 301399 x+ 62
    ∷ 317207 x+ 21
    ∷ 251916 x- 80
    ∷ 826429 x- 41
    ∷ 799063 x+ 40
    ∷ 547901 x- 58
    ∷ 123566 x- 9
    ∷ 420412 x- 97
    ∷ 970894 x- 54
    ∷ 808049 x- 71
    ∷ 987845 x- 91
    ∷ 638159 x+ 83
    ∷ 413207 x+ 39
    ∷ 395564 x+ 46
    ∷ 946690 x+ 40
    ∷ 651939 x+ 52
    ∷ 360237 x- 89
    ∷ 374098 x+ 88
    ∷ 238280 x- 20
    ∷ 82816 x+ 8
    ∷ 919722 x+ 40
    ∷ 601211 x+ 29
    ∷ 373542 x+ 43
    ∷ 459460 x+ 70
    ∷ 513295 x- 21
    ∷ 144440 x- 37
    ∷ 566520 x+ 86
    ∷ 220385 x+ 40
    ∷ 271190 x+ 48
    ∷ 266443 x- 72
    ∷ 650421 x+ 18
    ∷ 511506 x+ 51
    ∷ 279456 x+ 40
    ∷ 33318 x+ 5
    ∷ 354846 x+ 46
    ∷ 151773 x- 51
    ∷ 153703 x+ 40
    ∷ 596006 x- 34
    ∷ 434380 x+ 56
    ∷ 283276 x- 9
    ∷ 775385 x- 52
    ∷ 188795 x- 27
    ∷ 668101 x+ 67
    ∷ 331750 x- 81
    ∷ 377669 x- 13
    ∷ 537050 x- 45
    ∷ 441639 x- 56
    ∷ 171370 x+ 23
    ∷ 138827 x+ 50
    ∷ 756109 x+ 81
    ∷ 948736 x+ 83
    ∷ 638356 x- 79
    ∷ 924134 x- 46
    ∷ 809736 x+ 100
    ∷ 783774 x- 1
    ∷ 196188 x+ 73
    ∷ 220217 x+ 37
    ∷ 818362 x+ 28
    ∷ 960323 x+ 14
    ∷ 40394 x+ 50
    ∷ 766427 x+ 3
    ∷ 685628 x+ 65
    ∷ 800291 x+ 5
    ∷ 273315 x- 16
    ∷ 535698 x- 33
    ∷ 863718 x- 72
    ∷ 712938 x+ 47
    ∷ 983713 x+ 94
    ∷ 88021 x+ 28
    ∷ 242717 x- 51
    ∷ 45241 x- 32
    ∷ 398704 x- 27
    ∷ 28451 x+ 26
    ∷ 324078 x- 32
    ∷ 940865 x+ 70
    ∷ 872423 x+ 75
    ∷ 837563 x- 78
    ∷ 164525 x+ 87
    ∷ 338253 x+ 8
    ∷ 142064 x- 48
    ∷ 463204 x+ 50
    ∷ 975957 x- 84
    ∷ 602038 x+ 85
    ∷ 390688 x- 6
    ∷ 775366 x+ 28
    ∷ 574932 x+ 37
    ∷ 286594 x- 69
    ∷ 847035 x- 58
    ∷ 510312 x- 41
    ∷ 844234 x+ 44
    ∷ 747830 x- 11
    ∷ 429648 x- 55
    ∷ 560623 x+ 54
    ∷ 230798 x- 35
    ∷ 351029 x+ 49
    ∷ 363680 x+ 41
    ∷ 772955 x- 51
    ∷ 108005 x+ 20
    ∷ 733064 x+ 99
    ∷ 79564 x+ 8
    ∷ 35327 x- 24
    ∷ 929595 x+ 47
    ∷ 37142 x- 52
    ∷ 891295 x+ 44
    ∷ 505028 x- 31
    ∷ 659872 x- 64
    ∷ 336084 x+ 34
    ∷ 627357 x- 64
    ∷ 99365 x- 90
    ∷ 650221 x- 29
    ∷ 337295 x- 76
    ∷ 572921 x+ 88
    ∷ 877020 x+ 81
    ∷ 427261 x+ 60
    ∷ 608697 x+ 61
    ∷ 813012 x+ 11
    ∷ 654106 x+ 93
    ∷ 734822 x- 18
    ∷ 888036 x- 2
    ∷ 881506 x+ 82
    ∷ 678980 x- 86
    ∷ 619933 x- 12
    ∷ 509598 x+ 69
    ∷ 827059 x- 21
    ∷ 114975 x+ 75
    ∷ 737748 x+ 8
    ∷ 379957 x+ 55
    ∷ 294343 x- 86
    ∷ 131981 x- 54
    ∷ 30749 x+ 82
    ∷ 770447 x+ 56
    ∷ 380581 x- 91
    ∷ 296047 x+ 4
    ∷ 755663 x- 98
    ∷ 541313 x+ 46
    ∷ 163647 x- 93
    ∷ 418935 x+ 83
    ∷ 87838 x- 39
    ∷ 879163 x- 41
    ∷ 958020 x- 73
    ∷ 941985 x+ 11
    ∷ 687117 x- 94
    ∷ 694657 x+ 70
    ∷ 177379 x+ 7
    ∷ 293903 x+ 31
    ∷ 368712 x+ 59
    ∷ []
