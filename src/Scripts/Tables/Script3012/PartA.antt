-- ===== src/Scripts/Tables/Script3012/PartA.antt =====
-- The functions 0 to 149 of sample-assets-small/script-0012.js, a row for each line.
use cache_server_go.Base.{List, [], ◌∷◌}
use cache_server_go.Scripts.Fn.{Fn, ◌x+◌, ◌x-◌}

unfoldable pub fns_3012_a : List Fn
fns_3012_a =
    265847 x+ 27
    ∷ 195620 x+ 77
    ∷ 271903 x- 25
    ∷ 834879 x- 33
    ∷ 736058 x- 51
    ∷ 930695 x+ 82
    ∷ 556626 x+ 70
    ∷ 191459 x- 31
    ∷ 929050 x+ 17
    ∷ 841930 x+ 55
    ∷ 592381 x+ 17
    ∷ 870689 x+ 72
    ∷ 686681 x- 6
    ∷ 318180 x+ 86
    ∷ 409725 x+ 19
    ∷ 396162 x- 64
    ∷ 88802 x- 30
    ∷ 806499 x+ 40
    ∷ 344128 x- 58
    ∷ 970990 x+ 0
    ∷ 559718 x- 28
    ∷ 365459 x+ 99
    ∷ 930748 x+ 100
    ∷ 89250 x- 81
    ∷ 424455 x- 32
    ∷ 632628 x- 51
    ∷ 979527 x- 40
    ∷ 145726 x+ 82
    ∷ 271168 x- 31
    ∷ 811473 x+ 30
    ∷ 483519 x+ 93
    ∷ 557705 x- 15
    ∷ 681626 x+ 58
    ∷ 574290 x- 7
    ∷ 794889 x+ 58
    ∷ 689678 x- 49
    ∷ 984693 x- 88
    ∷ 224463 x+ 3
    ∷ 435760 x+ 60
    ∷ 811663 x+ 42
    ∷ 262162 x+ 66
    ∷ 131881 x- 74
    ∷ 216540 x- 76
    ∷ 638622 x- 41
    ∷ 492385 x- 29
    ∷ 126881 x+ 19
    ∷ 80692 x+ 3
    ∷ 387637 x- 70
    ∷ 389842 x+ 28
    ∷ 194727 x- 89
    ∷ 782400 x- 86
    ∷ 981374 x+ 14
    ∷ 406769 x- 97
    ∷ 578073 x- 79
    ∷ 340393 x+ 38
    ∷ 697301 x+ 59
    ∷ 231587 x- 70
    ∷ 814156 x+ 76
    ∷ 589309 x- 58
    ∷ 707907 x+ 50
    ∷ 878375 x- 82
    ∷ 884353 x+ 80
    ∷ 168926 x+ 8
    ∷ 921530 x- 93
    ∷ 4396 x- 95
    ∷ 511055 x+ 55
    ∷ 358477 x- 57
    ∷ 180003 x- 49
    ∷ 820039 x+ 31
    ∷ 333022 x- 66
    ∷ 949196 x+ 83
    ∷ 179429 x+ 5
    ∷ 625766 x- 36
    ∷ 486021 x+ 47
    ∷ 931139 x- 20
    ∷ 944552 x- 84
    ∷ 206305 x- 5
    ∷ 293195 x+ 98
    ∷ 300436 x- 76
    ∷ 867405 x+ 100
    ∷ 73645 x- 85
    ∷ 229562 x- 31
    ∷ 951583 x- 95
    ∷ 904480 x- 97
    ∷ 286822 x+ 10
    ∷ 838434 x+ 74
    ∷ 693124 x- 8
    ∷ 434358 x- 8
    ∷ 138937 x+ 80
    ∷ 285509 x+ 63
    ∷ 256561 x- 16
    ∷ 845383 x- 61
    ∷ 500961 x+ 66
    ∷ 143282 x- 9
    ∷ 161133 x+ 94
    ∷ 404821 x+ 40
    ∷ 818747 x- 94
    ∷ 560742 x- 91
    ∷ 901537 x+ 87
    ∷ 123771 x+ 56
    ∷ 715740 x- 10
    ∷ 196709 x+ 43
    ∷ 783762 x+ 36
    ∷ 659178 x+ 4
    ∷ 31172 x- 5
    ∷ 188623 x+ 29
    ∷ 779876 x+ 52
    ∷ 628023 x- 52
    ∷ 635784 x- 19
    ∷ 963956 x+ 83
    ∷ 494394 x+ 97
    ∷ 90384 x+ 93
    ∷ 415690 x- 46
    ∷ 143780 x- 61
    ∷ 995629 x- 96
    ∷ 827941 x- 47
    ∷ 796472 x- 19
    ∷ 423582 x- 79
    ∷ 290366 x+ 60
    ∷ 267509 x+ 67
    ∷ 371882 x+ 61
    ∷ 202587 x+ 2
    ∷ 193983 x- 96
    ∷ 672014 x- 43
    ∷ 867435 x+ 54
    ∷ 856573 x- 16
    ∷ 746644 x+ 21
    ∷ 167181 x- 46
    ∷ 787379 x+ 66
    ∷ 954164 x+ 28
    ∷ 388653 x- 13
    ∷ 866507 x- 95
    ∷ 91550 x- 81
    ∷ 664809 x- 84
    ∷ 728903 x- 87
    ∷ 188941 x+ 13
    ∷ 372520 x+ 79
    ∷ 416476 x+ 89
    ∷ 353403 x- 33
    ∷ 589617 x- 27
    ∷ 882841 x- 44
    ∷ 999462 x+ 56
    ∷ 583779 x- 14
    ∷ 61108 x- 40
    ∷ 440059 x- 23
    ∷ 144659 x+ 95
    ∷ 518461 x+ 19
    ∷ 256407 x- 45
    ∷ 456737 x- 98
    ∷ 158733 x- 5
    ∷ []
