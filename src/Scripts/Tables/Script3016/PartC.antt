-- ===== src/Scripts/Tables/Script3016/PartC.antt =====
-- The functions 300 to 449 of sample-assets-small/script-0016.js, a row for each line.
use cache_server_go.Base.{List, [], ◌∷◌}
use cache_server_go.Scripts.Fn.{Fn, ◌x+◌, ◌x-◌}

unfoldable pub fns_3016_c : List Fn
fns_3016_c =
    195595 x- 62
    ∷ 748996 x+ 37
    ∷ 379764 x+ 28
    ∷ 110587 x- 42
    ∷ 928517 x+ 53
    ∷ 505667 x+ 56
    ∷ 811421 x+ 1
    ∷ 311330 x+ 51
    ∷ 673711 x+ 43
    ∷ 962700 x+ 91
    ∷ 958652 x+ 100
    ∷ 329958 x+ 86
    ∷ 659922 x- 77
    ∷ 903368 x+ 37
    ∷ 49605 x+ 2
    ∷ 760150 x+ 68
    ∷ 7291 x+ 33
    ∷ 909645 x+ 68
    ∷ 259601 x- 64
    ∷ 410144 x+ 19
    ∷ 939691 x- 23
    ∷ 637182 x- 65
    ∷ 29355 x- 63
    ∷ 679575 x- 35
    ∷ 790886 x+ 35
    ∷ 990014 x+ 21
    ∷ 296575 x- 6
    ∷ 801522 x- 26
    ∷ 703081 x+ 72
    ∷ 454381 x- 66
    ∷ 302447 x- 5
    ∷ 112671 x- 58
    ∷ 423181 x+ 78
    ∷ 83389 x+ 17
    ∷ 190320 x+ 45
    ∷ 662430 x- 90
    ∷ 185522 x+ 0
    ∷ 322985 x+ 7
    ∷ 17839 x+ 25
    ∷ 181511 x+ 27
    ∷ 887261 x- 62
    ∷ 368153 x- 28
    ∷ 595697 x- 8
    ∷ 684785 x+ 85
    ∷ 25633 x+ 17
    ∷ 185711 x+ 17
    ∷ 205320 x+ 20
    ∷ 863626 x- 51
    ∷ 166143 x- 83
    ∷ 76800 x- 9
    ∷ 125488 x+ 72
    ∷ 718643 x- 64
    ∷ 839105 x+ 67
    ∷ 758077 x- 3
    ∷ 737424 x- 3
    ∷ 550760 x- 93
    ∷ 170295 x+ 91
    ∷ 171196 x+ 8
    ∷ 439071 x- 51
    ∷ 791804 x+ 2
    ∷ 371137 x- 17
    ∷ 834368 x+ 12
    ∷ 407818 x- 99
    ∷ 447675 x- 62
    ∷ 122290 x+ 54
    ∷ 988980 x+ 88
    ∷ 549018 x+ 50
    ∷ 142325 x- 62
    ∷ 514274 x+ 20
    ∷ 218278 x+ 16
    ∷ 763701 x- 93
    ∷ 49280 x+ 21
    ∷ 593119 x+ 48
    ∷ 139303 x+ 20
    ∷ 20432 x+ 73
    ∷ 983228 x+ 10
    ∷ 600269 x- 97
    ∷ 76293 x+ 82
    ∷ 245905 x- 14
    ∷ 880657 x+ 31
    ∷ 653962 x- 39
    ∷ 897981 x- 89
    ∷ 633700 x- 86
    ∷ 701410 x- 94
    ∷ 596821 x+ 76
    ∷ 135170 x- 93
    ∷ 334824 x- 10
    ∷ 314861 x+ 55
    ∷ 602189 x- 91
    ∷ 61942 x- 33
    ∷ 825297 x- 28
    ∷ 21964 x- 85
    ∷ 477832 x- 65
    ∷ 915390 x+ 33
    ∷ 824158 x- 31
    ∷ 597038 x- 91
    ∷ 735146 x+ 49
    ∷ 454083 x+ 53
    ∷ 156903 x+ 5
    ∷ 50600 x+ 28
    ∷ 531157 x+ 19
    ∷ 87945 x- 36
    ∷ 442032 x+ 40
    ∷ 875739 x- 8
    ∷ 865179 x- 4
    ∷ 392323 x+ 1
    ∷ 618567 x+ 69
    ∷ 910377 x- 59
    ∷ 513914 x- 76
    ∷ 231952 x+ 58
    ∷ 264385 x+ 74
    ∷ 195675 x+ 1
    ∷ 75896 x+ 9
    ∷ 589919 x+ 50
    ∷ 440454 x+ 53
    ∷ 141033 x+ 54
    ∷ 655054 x- 85
    ∷ 869018 x+ 94
    ∷ 936907 x+ 65
    ∷ 716652 x- 5
    ∷ 312587 x- 25
    ∷ 451345 x- 7
    ∷ 651595 x- 92
    ∷ 497402 x+ 70
    ∷ 312429 x+ 46
    ∷ 909341 x+ 9
    ∷ 321133 x- 81
    ∷ 37221 x- 27
    ∷ 826650 x- 1
    ∷ 118997 x+ 96
    ∷ 493653 x+ 76
    ∷ 189624 x+ 72
    ∷ 796998 x+ 81
    ∷ 940031 x+ 93
    ∷ 351601 x- 71
    ∷ 892486 x- 89
    ∷ 769326 x- 50
    ∷ 1778 x+ 72
    ∷ 639739 x- 53
    ∷ 871896 x+ 60
    ∷ 981837 x+ 5
    ∷ 926160 x- 74
    ∷ 422370 x- 47
    ∷ 659515 x- 62
    ∷ 515268 x- 3
    ∷ 112975 x- 91
    ∷ 930876 x- 28
    ∷ 131131 x- 44
    ∷ 251299 x+ 95
    ∷ 816533 x- 9
    ∷ []
