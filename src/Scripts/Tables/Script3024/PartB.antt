-- ===== src/Scripts/Tables/Script3024/PartB.antt =====
-- The functions 150 to 265 of sample-assets-small/script-0024.js, a row for each line.
use cache_server_go.Base.{List, [], ◌∷◌}
use cache_server_go.Scripts.Fn.{Fn, ◌x+◌, ◌x-◌}

unfoldable pub fns_3024_b : List Fn
fns_3024_b =
    366291 x- 90
    ∷ 931396 x+ 65
    ∷ 961235 x+ 41
    ∷ 668338 x- 13
    ∷ 767274 x- 38
    ∷ 750654 x- 39
    ∷ 953790 x- 90
    ∷ 636630 x- 92
    ∷ 180238 x- 21
    ∷ 805507 x+ 21
    ∷ 425913 x- 75
    ∷ 851799 x- 14
    ∷ 681437 x+ 87
    ∷ 52573 x- 40
    ∷ 372888 x+ 73
    ∷ 455458 x+ 10
    ∷ 255328 x- 61
    ∷ 347870 x+ 34
    ∷ 127248 x+ 12
    ∷ 321560 x- 73
    ∷ 867665 x+ 74
    ∷ 105470 x+ 46
    ∷ 310178 x- 46
    ∷ 11574 x- 68
    ∷ 891393 x- 67
    ∷ 488008 x- 65
    ∷ 489043 x+ 21
    ∷ 368902 x+ 56
    ∷ 501933 x+ 53
    ∷ 619399 x- 69
    ∷ 95578 x+ 98
    ∷ 552016 x+ 26
    ∷ 437252 x+ 49
    ∷ 689301 x- 27
    ∷ 330144 x+ 85
    ∷ 194817 x- 23
    ∷ 586343 x+ 19
    ∷ 842337 x+ 42
    ∷ 883115 x+ 97
    ∷ 234987 x+ 57
    ∷ 155864 x+ 16
    ∷ 63082 x+ 46
    ∷ 232190 x- 77
    ∷ 379313 x+ 67
    ∷ 541868 x- 80
    ∷ 346669 x- 43
    ∷ 153697 x+ 2
    ∷ 863936 x+ 98
    ∷ 907489 x- 44
    ∷ 670776 x- 89
    ∷ 884416 x+ 6
    ∷ 697494 x+ 30
    ∷ 729649 x+ 4
    ∷ 456047 x- 5
    ∷ 900519 x+ 16
    ∷ 421061 x- 4
    ∷ 421981 x- 91
    ∷ 37574 x+ 14
    ∷ 19214 x- 69
    ∷ 935922 x+ 9
    ∷ 883217 x+ 66
    ∷ 835682 x+ 36
    ∷ 30513 x+ 31
    ∷ 761315 x+ 52
    ∷ 629910 x+ 73
    ∷ 18830 x+ 95
    ∷ 340313 x+ 27
    ∷ 518998 x+ 20
    ∷ 22501 x+ 22
    ∷ 580313 x+ 37
    ∷ 490763 x+ 99
    ∷ 317984 x- 75
    ∷ 664508 x- 37
    ∷ 191931 x- 23
    ∷ 898091 x+ 63
    ∷ 635240 x+ 53
    ∷ 272679 x- 39
    ∷ 230238 x+ 54
    ∷ 50801 x- 23
    ∷ 111510 x+ 35
    ∷ 607082 x+ 15
    ∷ 452040 x+ 100
    ∷ 856305 x+ 27
    ∷ 812330 x+ 95
    ∷ 701993 x- 6
    ∷ 695099 x- 82
    ∷ 818503 x- 29
    ∷ 683054 x- 24
    ∷ 378631 x+ 23
    ∷ 636776 x+ 7
    ∷ 28342 x+ 34
    ∷ 496289 x+ 20
    ∷ 103410 x+ 10
    ∷ 113669 x+ 79
    ∷ 505612 x+ 3
    ∷ 916154 x- 87
    ∷ 540116 x+ 15
    ∷ 726750 x- 23
    ∷ 15694 x+ 39
    ∷ 562429 x+ 91
    ∷ 662427 x- 58
    ∷ 69521 x+ 69
    ∷ 679422 x- 97
    ∷ 39188 x- 55
    ∷ 194866 x- 79
    ∷ 782803 x+ 80
    ∷ 234661 x- 84
    ∷ 48835 x- 68
    ∷ 37540 x- 89
    ∷ 324291 x+ 95
    ∷ 634162 x- 13
    ∷ 61669 x- 82
    ∷ 555674 x+ 93
    ∷ 534372 x+ 11
    ∷ 259841 x+ 20
    ∷ 40429 x- 46
    ∷ []
