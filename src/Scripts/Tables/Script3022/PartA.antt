-- ===== src/Scripts/Tables/Script3022/PartA.antt =====
-- The functions 0 to 149 of sample-assets-small/script-0022.js, a row for each line.
use cache_server_go.Base.{List, [], ◌∷◌}
use cache_server_go.Scripts.Fn.{Fn, ◌x+◌, ◌x-◌}

unfoldable pub fns_3022_a : List Fn
fns_3022_a =
    450257 x- 65
    ∷ 410400 x- 26
    ∷ 160247 x+ 11
    ∷ 413709 x+ 28
    ∷ 508961 x- 46
    ∷ 567764 x+ 6
    ∷ 27571 x- 98
    ∷ 300846 x+ 28
    ∷ 544070 x- 47
    ∷ 959614 x+ 24
    ∷ 789004 x+ 58
    ∷ 702340 x- 52
    ∷ 228422 x+ 85
    ∷ 239597 x+ 56
    ∷ 256362 x+ 9
    ∷ 668636 x- 97
    ∷ 365351 x+ 62
    ∷ 759715 x+ 18
    ∷ 850700 x+ 79
    ∷ 3521 x+ 90
    ∷ 504501 x+ 46
    ∷ 766470 x- 11
    ∷ 712635 x- 26
    ∷ 597794 x+ 96
    ∷ 225062 x+ 33
    ∷ 191373 x+ 98
    ∷ 889118 x+ 28
    ∷ 665444 x+ 13
    ∷ 79403 x- 44
    ∷ 403949 x- 17
    ∷ 543556 x- 62
    ∷ 209608 x+ 36
    ∷ 980657 x+ 93
    ∷ 933151 x+ 54
    ∷ 609535 x+ 98
    ∷ 180145 x- 50
    ∷ 921319 x+ 75
    ∷ 481632 x+ 9
    ∷ 244817 x+ 32
    ∷ 609799 x- 26
    ∷ 945490 x+ 1
    ∷ 288265 x- 47
    ∷ 86710 x- 45
    ∷ 42923 x+ 76
    ∷ 343767 x- 50
    ∷ 477374 x+ 78
    ∷ 570416 x- 5
    ∷ 335757 x+ 64
    ∷ 697099 x- 69
    ∷ 530505 x- 18
    ∷ 366308 x+ 12
    ∷ 458143 x+ 72
    ∷ 822133 x+ 84
    ∷ 337788 x- 6
    ∷ 215555 x- 77
    ∷ 575232 x+ 72
    ∷ 428130 x+ 18
    ∷ 327551 x- 65
    ∷ 947324 x- 51
    ∷ 829029 x- 99
    ∷ 432904 x+ 9
    ∷ 630041 x- 86
    ∷ 618410 x+ 96
    ∷ 95983 x- 93
    ∷ 990328 x- 76
    ∷ 79496 x+ 32
    ∷ 866094 x- 23
    ∷ 814435 x+ 95
    ∷ 254335 x+ 31
    ∷ 109511 x- 35
    ∷ 649013 x+ 39
    ∷ 70222 x- 40
    ∷ 925659 x- 33
    ∷ 407177 x- 83
    ∷ 428077 x+ 22
    ∷ 21536 x- 6
    ∷ 312034 x+ 26
    ∷ 725830 x- 33
    ∷ 944912 x- 47
    ∷ 83163 x- 5
    ∷ 568970 x- 68
    ∷ 286949 x- 20
    ∷ 37279 x+ 95
    ∷ 440118 x+ 8
    ∷ 846481 x+ 52
    ∷ 214732 x+ 80
    ∷ 567116 x- 14
    ∷ 307891 x- 72
    ∷ 710703 x- 9
    ∷ 33009 x- 40
    ∷ 673309 x+ 3
    ∷ 849151 x- 44
    ∷ 203083 x- 82
    ∷ 670933 x+ 22
    ∷ 960817 x- 36
    ∷ 906304 x- 6
    ∷ 7198 x- 57
    ∷ 947529 x- 68
    ∷ 751190 x- 27
    ∷ 188536 x- 12
    ∷ 951738 x+ 12
    ∷ 235227 x+ 100
    ∷ 166027 x+ 67
    ∷ 447911 x+ 4
    ∷ 892538 x+ 15
    ∷ 595456 x+ 1
    ∷ 182089 x- 80
    ∷ 126581 x+ 0
    ∷ 212004 x- 39
    ∷ 845385 x+ 59
    ∷ 789646 x- 55
    ∷ 160357 x- 30
    ∷ 763395 x- 82
    ∷ 614645 x+ 68
    ∷ 758241 x+ 72
    ∷ 468062 x+ 99
    ∷ 19940 x+ 56
    ∷ 649029 x+ 71
    ∷ 719278 x- 89
    ∷ 262114 x- 76
    ∷ 75735 x+ 18
    ∷ 281845 x+ 91
    ∷ 247746 x- 21
    ∷ 633910 x+ 76
    ∷ 682219 x- 89
    ∷ 50368 x+ 13
    ∷ 441798 x- 63
    ∷ 75080 x- 45
    ∷ 279302 x+ 34
    ∷ 677444 x+ 2
    ∷ 7641 x+ 62
    ∷ 527670 x+ 92
    ∷ 322589 x- 36
    ∷ 73339 x+ 47
    ∷ 140350 x+ 93
    ∷ 159579 x+ 24
    ∷ 181818 x+ 5
    ∷ 644317 x+ 19
    ∷ 637057 x+ 66
    ∷ 829359 x- 9
    ∷ 769410 x+ 90
    ∷ 564184 x+ 65
    ∷ 331670 x+ 26
    ∷ 653800 x- 9
    ∷ 159530 x- 100
    ∷ 348426 x+ 10
    ∷ 695930 x+ 36
    ∷ 866957 x- 19
    ∷ 3526 x+ 83
    ∷ 107969 x- 88
    ∷ []
