-- ===== src/Scripts/Tables/Script3011/PartB.antt =====
-- The functions 150 to 299 of sample-assets-small/script-0011.js, a row for each line.
use cache_server_go.Base.{List, [], ◌∷◌}
use cache_server_go.Scripts.Fn.{Fn, ◌x+◌, ◌x-◌}

unfoldable pub fns_3011_b : List Fn
fns_3011_b =
    326370 x- 29
    ∷ 366306 x+ 56
    ∷ 901844 x- 61
    ∷ 928003 x+ 18
    ∷ 761246 x- 31
    ∷ 544547 x+ 38
    ∷ 541762 x- 33
    ∷ 226271 x+ 33
    ∷ 251210 x+ 37
    ∷ 990985 x- 19
    ∷ 9733 x- 30
    ∷ 283429 x- 44
    ∷ 867063 x+ 45
    ∷ 413908 x- 78
    ∷ 579060 x- 60
    ∷ 860404 x+ 11
    ∷ 209616 x+ 4
    ∷ 800080 x+ 30
    ∷ 284748 x- 30
    ∷ 94717 x+ 5
    ∷ 177958 x- 6
    ∷ 88195 x- 35
    ∷ 363822 x- 21
    ∷ 775697 x+ 55
    ∷ 690742 x- 87
    ∷ 222831 x- 42
    ∷ 924889 x- 82
    ∷ 480566 x+ 41
    ∷ 672048 x- 17
    ∷ 439837 x+ 53
    ∷ 20936 x+ 45
    ∷ 204572 x+ 35
    ∷ 817972 x+ 92
    ∷ 531326 x- 48
    ∷ 482658 x+ 21
    ∷ 97458 x- 53
    ∷ 217000 x+ 9
    ∷ 896639 x- 4
    ∷ 211203 x- 42
    ∷ 879652 x- 41
    ∷ 328191 x+ 21
    ∷ 511769 x+ 31
    ∷ 770438 x+ 85
    ∷ 6638 x+ 16
    ∷ 497755 x+ 55
    ∷ 725828 x+ 18
    ∷ 243467 x- 82
    ∷ 934938 x- 63
    ∷ 924859 x+ 91
    ∷ 411432 x- 79
    ∷ 152700 x+ 89
    ∷ 875157 x+ 43
    ∷ 384064 x+ 43
    ∷ 89517 x- 86
    ∷ 274088 x- 9
    ∷ 553916 x+ 11
    ∷ 90502 x- 74
    ∷ 926909 x- 28
    ∷ 637862 x+ 56
    ∷ 212278 x- 62
    ∷ 122194 x+ 68
    ∷ 192059 x+ 49
    ∷ 783015 x- 77
    ∷ 868135 x- 72
    ∷ 308695 x- 67
    ∷ 253723 x+ 65
    ∷ 573844 x- 48
    ∷ 168427 x+ 29
    ∷ 596876 x- 90
    ∷ 170820 x+ 51
    ∷ 6545 x+ 17
    ∷ 885064 x- 91
    ∷ 228004 x+ 67
    ∷ 140653 x- 37
    ∷ 291733 x- 28
    ∷ 498619 x- 26
    ∷ 724748 x+ 48
    ∷ 246855 x- 47
    ∷ 747195 x+ 92
    ∷ 587847 x+ 42
    ∷ 538515 x+ 13
    ∷ 732054 x+ 11
    ∷ 142755 x- 100
    ∷ 175551 x+ 32
    ∷ 262017 x+ 26
    ∷ 263608 x- 33
    ∷ 757969 x+ 34
    ∷ 245109 x+ 59
    ∷ 398658 x+ 4
    ∷ 849722 x+ 96
    ∷ 913111 x+ 8
    ∷ 325514 x+ 18
    ∷ 229491 x+ 74
    ∷ 613954 x+ 51
    ∷ 822971 x- 77
    ∷ 712490 x+ 25
    ∷ 484272 x- 55
    ∷ 827831 x+ 10
    ∷ 816501 x+ 69
    ∷ 824064 x+ 97
    ∷ 915149 x- 99
    ∷ 196402 x- 100
    ∷ 729483 x+ 82
    ∷ 256094 x- 28
    ∷ 225882 x- 77
    ∷ 158628 x+ 83
    ∷ 970367 x+ 77
    ∷ 390254 x- 75
    ∷ 258949 x+ 53
    ∷ 47581 x+ 92
    ∷ 2190 x+ 96
    ∷ 958565 x+ 87
    ∷ 888798 x- 64
    ∷ 77697 x- 2
    ∷ 6601 x- 73
    ∷ 262880 x- 77
    ∷ 193626 x+ 7
    ∷ 895098 x- 77
    ∷ 878272 x- 44
    ∷ 378639 x+ 59
    ∷ 605559 x+ 17
    ∷ 931400 x+ 66
    ∷ 49307 x+ 29
    ∷ 774837 x+ 14
    ∷ 916813 x+ 22
    ∷ 403296 x+ 60
    ∷ 60418 x+ 44
    ∷ 672652 x+ 75
    ∷ 787856 x+ 94
    ∷ 954050 x- 76
    ∷ 563671 x- 76
    ∷ 510528 x- 16
    ∷ 85852 x+ 21
    ∷ 259301 x- 28
    ∷ 421074 x- 8
    ∷ 302213 x- 22
    ∷ 901074 x- 69
    ∷ 216583 x+ 52
    ∷ 106106 x- 48
    ∷ 285619 x- 24
    ∷ 104404 x- 90
    ∷ 850400 x+ 74
    ∷ 447676 x- 37
    ∷ 557629 x+ 1
    ∷ 443025 x+ 6
    ∷ 402712 x- 56
    ∷ 963614 x+ 28
    ∷ 328813 x- 84
    ∷ 154699 x- 74
    ∷ 623955 x- 27
    ∷ []
