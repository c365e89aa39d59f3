-- ===== src/Scripts/Tables/Script3004/PartA.antt =====
-- The functions 0 to 149 of sample-assets-small/script-0004.js, a row for each line.
use cache_server_go.Base.{List, [], ◌∷◌}
use cache_server_go.Scripts.Fn.{Fn, ◌x+◌, ◌x-◌}

unfoldable pub fns_3004_a : List Fn
fns_3004_a =
    494651 x- 48
    ∷ 701018 x+ 86
    ∷ 662002 x+ 83
    ∷ 857314 x- 91
    ∷ 565070 x- 90
    ∷ 662482 x+ 2
    ∷ 495336 x+ 45
    ∷ 121198 x- 13
    ∷ 644540 x+ 56
    ∷ 15354 x+ 89
    ∷ 349201 x+ 91
    ∷ 742670 x+ 79
    ∷ 366531 x+ 89
    ∷ 338784 x- 76
    ∷ 834311 x- 29
    ∷ 593010 x- 5
    ∷ 342925 x+ 78
    ∷ 36456 x+ 90
    ∷ 475432 x- 100
    ∷ 778182 x+ 82
    ∷ 286458 x+ 19
    ∷ 97218 x- 74
    ∷ 603500 x- 11
    ∷ 188379 x+ 68
    ∷ 829274 x+ 35
    ∷ 862218 x+ 13
    ∷ 813652 x- 27
    ∷ 885330 x- 80
    ∷ 56407 x+ 8
    ∷ 685347 x+ 22
    ∷ 884387 x+ 2
    ∷ 73742 x+ 43
    ∷ 908800 x+ 15
    ∷ 282739 x- 80
    ∷ 819246 x- 91
    ∷ 817572 x+ 37
    ∷ 891801 x- 33
    ∷ 843546 x- 22
    ∷ 881540 x- 26
    ∷ 994749 x+ 50
    ∷ 98130 x+ 17
    ∷ 804376 x- 6
    ∷ 466490 x+ 98
    ∷ 790509 x- 4
    ∷ 647785 x+ 99
    ∷ 247552 x- 14
    ∷ 847152 x- 5
    ∷ 711371 x+ 81
    ∷ 482961 x+ 5
    ∷ 965665 x- 88
    ∷ 854646 x+ 33
    ∷ 256237 x- 83
    ∷ 361677 x+ 10
    ∷ 192244 x+ 92
    ∷ 619275 x+ 10
    ∷ 861008 x- 80
    ∷ 394503 x- 29
    ∷ 545158 x- 64
    ∷ 960428 x- 9
    ∷ 236664 x- 13
    ∷ 994972 x- 49
    ∷ 487801 x- 7
    ∷ 812011 x+ 57
    ∷ 180342 x- 29
    ∷ 901031 x- 39
    ∷ 901653 x- 75
    ∷ 557888 x- 25
    ∷ 524947 x- 69
    ∷ 844106 x- 5
    ∷ 568999 x- 80
    ∷ 171675 x+ 52
    ∷ 589663 x+ 70
    ∷ 196022 x- 91
    ∷ 568871 x+ 17
    ∷ 612605 x- 26
    ∷ 198899 x+ 1
    ∷ 998571 x- 7
    ∷ 393005 x- 70
    ∷ 123605 x+ 30
    ∷ 872959 x- 29
    ∷ 923464 x+ 79
    ∷ 439739 x- 14
    ∷ 219068 x+ 2
    ∷ 359388 x+ 55
    ∷ 690081 x- 42
    ∷ 34494 x- 35
    ∷ 549139 x+ 60
    ∷ 464225 x+ 85
    ∷ 368890 x+ 95
    ∷ 388815 x+ 86
    ∷ 337083 x- 30
    ∷ 454268 x- 24
    ∷ 346398 x- 84
    ∷ 933760 x+ 64
    ∷ 562831 x- 30
    ∷ 841188 x+ 77
    ∷ 185932 x+ 37
    ∷ 677824 x+ 19
    ∷ 312157 x+ 59
    ∷ 813281 x- 29
    ∷ 160345 x+ 29
    ∷ 195238 x+ 31
    ∷ 412042 x+ 42
    ∷ 802189 x- 26
    ∷ 914327 x- 20
    ∷ 629345 x- 9
    ∷ 542057 x+ 46
    ∷ 154178 x- 59
    ∷ 525960 x+ 56
    ∷ 195757 x- 23
    ∷ 794586 x+ 38
    ∷ 50738 x- 36
    ∷ 826026 x+ 4
    ∷ 750266 x+ 66
    ∷ 424466 x+ 62
    ∷ 398995 x- 41
    ∷ 614236 x+ 68
    ∷ 762125 x- 26
    ∷ 692681 x+ 90
    ∷ 344143 x- 3
    ∷ 713769 x+ 51
    ∷ 45652 x+ 7
    ∷ 956283 x- 22
    ∷ 975490 x+ 49
    ∷ 757594 x- 75
    ∷ 842422 x- 18
    ∷ 809273 x- 41
    ∷ 560098 x+ 44
    ∷ 888965 x- 34
    ∷ 974140 x+ 22
    ∷ 767936 x+ 7
    ∷ 528938 x- 100
    ∷ 743117 x- 94
    ∷ 827036 x+ 92
    ∷ 156067 x- 95
    ∷ 59229 x+ 77
    ∷ 518149 x+ 0
    ∷ 603858 x+ 72
    ∷ 870491 x- 54
    ∷ 661379 x- 66
    ∷ 599442 x- 84
    ∷ 32799 x+ 33
    ∷ 560502 x+ 39
    ∷ 870346 x- 9
    ∷ 78178 x- 25
    ∷ 491834 x- 72
    ∷ 111837 x+ 40
    ∷ 231754 x+ 18
    ∷ 238698 x- 50
    ∷ 598992 x+ 31
    ∷ []
