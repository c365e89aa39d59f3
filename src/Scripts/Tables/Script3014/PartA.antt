-- ===== src/Scripts/Tables/Script3014/PartA.antt =====
-- The functions 0 to 149 of sample-assets-small/script-0014.js, a row for each line.
use cache_server_go.Base.{List, [], ◌∷◌}
use cache_server_go.Scripts.Fn.{Fn, ◌x+◌, ◌x-◌}

unfoldable pub fns_3014_a : List Fn
fns_3014_a =
    110760 x+ 43
    ∷ 231815 x- 69
    ∷ 341464 x+ 68
    ∷ 403208 x- 98
    ∷ 360209 x- 62
    ∷ 983960 x- 62
    ∷ 257422 x+ 97
    ∷ 243442 x+ 18
    ∷ 386624 x+ 72
    ∷ 474945 x- 48
    ∷ 568186 x- 78
    ∷ 654871 x+ 34
    ∷ 226442 x+ 86
    ∷ 707832 x+ 58
    ∷ 627058 x- 40
    ∷ 696976 x+ 0
    ∷ 923054 x- 55
    ∷ 27072 x- 28
    ∷ 245732 x+ 47
    ∷ 810095 x+ 77
    ∷ 340409 x+ 80
    ∷ 745947 x- 42
    ∷ 373725 x- 69
    ∷ 846940 x+ 83
    ∷ 240385 x- 82
    ∷ 69302 x- 87
    ∷ 532255 x- 72
    ∷ 377227 x- 52
    ∷ 641289 x+ 66
    ∷ 865497 x+ 98
    ∷ 439885 x+ 43
    ∷ 823140 x+ 90
    ∷ 605060 x+ 41
    ∷ 977311 x- 81
    ∷ 829891 x- 25
    ∷ 279044 x+ 49
    ∷ 39819 x- 22
    ∷ 715444 x+ 47
    ∷ 207769 x+ 38
    ∷ 456727 x- 98
    ∷ 261159 x+ 60
    ∷ 886695 x+ 36
    ∷ 832512 x- 48
    ∷ 502789 x- 91
    ∷ 857233 x- 14
    ∷ 664488 x- 73
    ∷ 239069 x+ 89
    ∷ 594037 x+ 100
    ∷ 184879 x- 22
    ∷ 488558 x- 37
    ∷ 789358 x- 29
    ∷ 68773 x- 11
    ∷ 658435 x+ 22
    ∷ 778149 x+ 89
    ∷ 893424 x+ 42
    ∷ 909832 x+ 7
    ∷ 474735 x- 72
    ∷ 491308 x- 70
    ∷ 405023 x+ 40
    ∷ 325074 x- 76
    ∷ 752570 x+ 51
    ∷ 326219 x- 79
    ∷ 119212 x- 21
    ∷ 984854 x- 13
    ∷ 408843 x+ 19
    ∷ 467206 x+ 54
    ∷ 339015 x+ 39
    ∷ 65713 x- 1
    ∷ 847030 x+ 77
    ∷ 46363 x- 10
    ∷ 151079 x- 33
    ∷ 661125 x+ 71
    ∷ 111224 x- 59
    ∷ 859214 x+ 31
    ∷ 873973 x- 21
    ∷ 390927 x- 92
    ∷ 844932 x- 58
    ∷ 999996 x+ 53
    ∷ 636362 x- 78
    ∷ 356480 x- 22
    ∷ 649228 x+ 52
    ∷ 170356 x- 76
    ∷ 669620 x+ 34
    ∷ 401792 x+ 41
    ∷ 255272 x+ 24
    ∷ 48964 x+ 43
    ∷ 487519 x- 75
    ∷ 682645 x+ 0
    ∷ 229357 x- 23
    ∷ 513311 x- 49
    ∷ 459905 x+ 31
    ∷ 712302 x- 92
    ∷ 959148 x+ 20
    ∷ 174424 x- 50
    ∷ 229049 x- 69
    ∷ 397678 x+ 11
    ∷ 876137 x- 64
    ∷ 387961 x- 11
    ∷ 530754 x+ 11
    ∷ 502757 x+ 61
    ∷ 193887 x- 24
    ∷ 425395 x- 52
    ∷ 313593 x- 89
    ∷ 504086 x- 63
    ∷ 600496 x- 40
    ∷ 869273 x+ 65
    ∷ 705616 x+ 97
    ∷ 587670 x+ 92
    ∷ 297221 x- 96
    ∷ 25836 x+ 1
    ∷ 162511 x+ 12
    ∷ 552839 x+ 16
    ∷ 474205 x+ 77
    ∷ 723163 x- 99
    ∷ 590226 x- 88
    ∷ 725764 x+ 98
    ∷ 241779 x- 97
    ∷ 353650 x- 32
    ∷ 536274 x- 50
    ∷ 81170 x- 54
    ∷ 89144 x+ 8
    ∷ 346627 x- 30
    ∷ 46902 x- 37
    ∷ 110487 x+ 8
    ∷ 946603 x- 14
    ∷ 904348 x+ 84
    ∷ 765453 x- 92
    ∷ 204638 x- 57
    ∷ 395590 x- 62
    ∷ 290692 x- 77
    ∷ 848978 x+ 20
    ∷ 98764 x+ 59
    ∷ 485656 x- 62
    ∷ 620992 x- 3
    ∷ 247521 x- 88
    ∷ 16306 x+ 25
    ∷ 531320 x- 84
    ∷ 77295 x+ 41
    ∷ 927971 x- 82
    ∷ 722399 x- 51
    ∷ 529715 x- 4
    ∷ 572058 x- 25
    ∷ 930027 x+ 78
    ∷ 178247 x+ 59
    ∷ 61751 x+ 38
    ∷ 348355 x+ 31
    ∷ 32687 x+ 20
    ∷ 174871 x- 28
    ∷ 497683 x+ 27
    ∷ 659149 x+ 40
    ∷ []
