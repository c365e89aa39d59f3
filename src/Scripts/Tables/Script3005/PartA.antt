-- ===== src/Scripts/Tables/Script3005/PartA.antt =====
-- The functions 0 to 149 of sample-assets-small/script-0005.js, a row for each line.
use cache_server_go.Base.{List, [], ◌∷◌}
use cache_server_go.Scripts.Fn.{Fn, ◌x+◌, ◌x-◌}

unfoldable pub fns_3005_a : List Fn
fns_3005_a =
    728714 x+ 1
    ∷ 334650 x- 45
    ∷ 77825 x+ 86
    ∷ 26105 x+ 37
    ∷ 351472 x- 87
    ∷ 897826 x+ 15
    ∷ 238610 x+ 35
    ∷ 630240 x+ 40
    ∷ 43204 x+ 6
    ∷ 444558 x+ 16
    ∷ 193305 x+ 64
    ∷ 402495 x- 18
    ∷ 261594 x+ 92
    ∷ 671052 x- 80
    ∷ 281759 x+ 70
    ∷ 438071 x+ 36
    ∷ 469082 x- 74
    ∷ 563995 x- 23
    ∷ 311215 x+ 62
    ∷ 275896 x+ 56
    ∷ 474451 x+ 46
    ∷ 227706 x+ 85
    ∷ 709415 x- 55
    ∷ 158471 x+ 86
    ∷ 867189 x- 22
    ∷ 453548 x- 2
    ∷ 876194 x- 45
    ∷ 999535 x+ 90
    ∷ 335072 x- 42
    ∷ 826760 x- 7
    ∷ 179979 x+ 60
    ∷ 311593 x+ 68
    ∷ 623691 x- 83
    ∷ 74994 x+ 4
    ∷ 449161 x+ 88
    ∷ 462322 x+ 55
    ∷ 712279 x+ 24
    ∷ 902141 x+ 12
    ∷ 344270 x- 44
    ∷ 273629 x+ 81
    ∷ 103540 x- 47
    ∷ 932038 x- 61
    ∷ 405006 x- 69
    ∷ 237983 x+ 95
    ∷ 474214 x- 46
    ∷ 436347 x+ 4
    ∷ 326889 x- 18
    ∷ 912167 x+ 5
    ∷ 264499 x- 33
    ∷ 92534 x- 3
    ∷ 172054 x+ 91
    ∷ 899325 x- 25
    ∷ 802971 x- 88
    ∷ 287175 x+ 61
    ∷ 499678 x- 41
    ∷ 139113 x+ 93
    ∷ 482252 x+ 58
    ∷ 729809 x+ 73
    ∷ 651455 x- 37
    ∷ 601653 x+ 38
    ∷ 238229 x- 41
    ∷ 70415 x+ 62
    ∷ 902829 x- 27
    ∷ 249685 x+ 58
    ∷ 905839 x+ 14
    ∷ 209510 x- 25
    ∷ 632227 x- 76
    ∷ 595264 x- 88
    ∷ 135797 x+ 17
    ∷ 972843 x- 50
    ∷ 236799 x- 62
    ∷ 193228 x- 46
    ∷ 430736 x- 61
    ∷ 222591 x- 36
    ∷ 726925 x+ 32
    ∷ 193382 x- 66
    ∷ 259395 x+ 72
    ∷ 744523 x- 32
    ∷ 360952 x+ 66
    ∷ 491842 x- 54
    ∷ 512914 x- 26
    ∷ 74280 x- 11
    ∷ 473728 x- 28
    ∷ 82050 x+ 79
    ∷ 641172 x- 17
    ∷ 360558 x+ 60
    ∷ 320857 x+ 68
    ∷ 545217 x+ 88
    ∷ 984997 x+ 65
    ∷ 581777 x- 95
    ∷ 454727 x+ 59
    ∷ 733195 x+ 73
    ∷ 419960 x- 40
    ∷ 528721 x- 62
    ∷ 41116 x- 91
    ∷ 673042 x- 98
    ∷ 576754 x+ 85
    ∷ 213205 x+ 73
    ∷ 275033 x+ 45
    ∷ 157847 x- 92
    ∷ 190736 x- 96
    ∷ 415788 x- 51
    ∷ 479645 x- 22
    ∷ 157770 x+ 55
    ∷ 553167 x- 85
    ∷ 575888 x+ 6
    ∷ 238404 x+ 43
    ∷ 755628 x+ 33
    ∷ 366712 x+ 1
    ∷ 929147 x+ 58
    ∷ 861870 x+ 49
    ∷ 647632 x- 81
    ∷ 928529 x+ 0
    ∷ 952730 x+ 52
    ∷ 33409 x- 72
    ∷ 413884 x+ 81
    ∷ 749432 x- 23
    ∷ 232371 x+ 26
    ∷ 651445 x+ 32
    ∷ 732461 x+ 86
    ∷ 600976 x+ 1
    ∷ 54263 x+ 76
    ∷ 941084 x+ 30
    ∷ 11299 x- 37
    ∷ 982781 x+ 60
    ∷ 490531 x- 16
    ∷ 963961 x- 34
    ∷ 669969 x+ 68
    ∷ 789308 x+ 1
    ∷ 479236 x- 23
    ∷ 33149 x+ 53
    ∷ 466755 x+ 25
    ∷ 750419 x- 1
    ∷ 458858 x+ 88
    ∷ 838516 x+ 25
    ∷ 298266 x+ 34
    ∷ 232882 x+ 60
    ∷ 843355 x+ 50
    ∷ 449561 x- 64
    ∷ 643946 x+ 98
    ∷ 547348 x+ 73
    ∷ 28123 x- 12
    ∷ 526748 x- 23
    ∷ 632011 x+ 0
    ∷ 336443 x- 92
    ∷ 33569 x- 28
    ∷ 714445 x- 55
    ∷ 566062 x+ 15
    ∷ 61270 x+ 41
    ∷ 707604 x+ 16
    ∷ []
