-- ===== src/Scripts/Tables/Script3005/PartB.antt =====
-- The functions 150 to 297 of sample-assets-small/script-0005.js, a row for each line.
use cache_server_go.Base.{List, [], ◌∷◌}
use cache_server_go.Scripts.Fn.{Fn, ◌x+◌, ◌x-◌}

unfoldable pub fns_3005_b : List Fn
fns_3005_b =
    960698 x+ 74
    ∷ 305959 x+ 98
    ∷ 650156 x- 13
    ∷ 605685 x- 92
    ∷ 345309 x- 11
    ∷ 700756 x+ 38
    ∷ 555815 x- 10
    ∷ 506451 x- 90
    ∷ 492211 x+ 97
    ∷ 599351 x+ 61
    ∷ 680339 x- 58
    ∷ 25247 x- 17
    ∷ 172086 x+ 66
    ∷ 288057 x- 37
    ∷ 916656 x+ 59
    ∷ 506474 x- 11
    ∷ 407626 x+ 52
    ∷ 516505 x- 5
    ∷ 73309 x- 63
    ∷ 934410 x- 12
    ∷ 874277 x- 76
    ∷ 797639 x- 64
    ∷ 190024 x+ 32
    ∷ 892955 x+ 11
    ∷ 836694 x+ 98
    ∷ 204933 x+ 98
    ∷ 512040 x+ 58
    ∷ 639932 x+ 88
    ∷ 496567 x+ 43
    ∷ 280300 x+ 88
    ∷ 452552 x- 85
    ∷ 452394 x+ 90
    ∷ 291900 x- 69
    ∷ 249640 x+ 34
    ∷ 81722 x+ 38
    ∷ 60798 x- 93
    ∷ 374494 x- 50
    ∷ 29225 x+ 33
    ∷ 754877 x+ 88
    ∷ 954171 x+ 4
    ∷ 752212 x+ 87
    ∷ 949837 x+ 10
    ∷ 870189 x+ 91
    ∷ 963888 x+ 17
    ∷ 16741 x- 77
    ∷ 639189 x+ 90
    ∷ 856040 x+ 33
    ∷ 390582 x+ 80
    ∷ 674404 x- 28
    ∷ 394477 x- 12
    ∷ 660569 x+ 49
    ∷ 816343 x- 13
    ∷ 491204 x+ 97
    ∷ 897671 x- 7
    ∷ 604475 x- 14
    ∷ 330738 x- 84
    ∷ 142278 x+ 100
    ∷ 469349 x+ 99
    ∷ 702866 x- 81
    ∷ 581830 x- 59
    ∷ 416040 x- 75
    ∷ 866000 x- 75
    ∷ 756236 x- 1
    ∷ 108071 x- 71
    ∷ 189406 x- 69
    ∷ 246585 x- 53
    ∷ 329523 x+ 58
    ∷ 658541 x+ 66
    ∷ 49880 x- 91
    ∷ 605331 x+ 76
    ∷ 158969 x- 81
    ∷ 644329 x+ 15
    ∷ 481909 x- 75
    ∷ 930386 x- 75
    ∷ 153672 x- 6
    ∷ 142097 x+ 7
    ∷ 701757 x- 47
    ∷ 442786 x+ 15
    ∷ 485980 x+ 66
    ∷ 321696 x+ 7
    ∷ 517916 x+ 8
    ∷ 824496 x+ 79
    ∷ 551884 x- 79
    ∷ 661125 x+ 27
    ∷ 29535 x- 98
    ∷ 17517 x+ 19
    ∷ 257181 x+ 52
    ∷ 330434 x- 23
    ∷ 693129 x+ 82
    ∷ 153068 x- 41
    ∷ 968127 x+ 5
    ∷ 750021 x- 92
    ∷ 89819 x- 88
    ∷ 620179 x- 30
    ∷ 588765 x- 100
    ∷ 64293 x+ 97
    ∷ 797225 x- 13
    ∷ 938777 x+ 40
    ∷ 634341 x- 75
    ∷ 967055 x- 16
    ∷ 970584 x- 26
    ∷ 572393 x+ 81
    ∷ 529370 x- 69
    ∷ 598614 x- 95
    ∷ 936850 x- 24
    ∷ 461928 x+ 55
    ∷ 217217 x+ 69
    ∷ 210461 x+ 10
    ∷ 622677 x- 65
    ∷ 364104 x- 47
    ∷ 205499 x- 88
    ∷ 244259 x- 4
    ∷ 731667 x- 70
    ∷ 969192 x- 97
    ∷ 986378 x+ 89
    ∷ 294676 x+ 30
    ∷ 788410 x+ 5
    ∷ 833862 x- 34
    ∷ 217235 x+ 58
    ∷ 376597 x+ 53
    ∷ 7837 x+ 64
    ∷ 975996 x+ 57
    ∷ 214222 x+ 14
    ∷ 403894 x+ 54
    ∷ 787302 x- 72
    ∷ 72253 x+ 68
    ∷ 376172 x+ 16
    ∷ 138650 x- 68
    ∷ 300269 x+ 70
    ∷ 140100 x+ 46
    ∷ 333883 x+ 44
    ∷ 328528 x+ 53
    ∷ 413965 x- 51
    ∷ 208152 x- 9
    ∷ 940098 x- 3
    ∷ 910873 x+ 84
    ∷ 288841 x- 18
    ∷ 280354 x- 80
    ∷ 917616 x+ 56
    ∷ 312422 x+ 86
    ∷ 70072 x+ 29
    ∷ 492320 x- 4
    ∷ 489460 x+ 7
    ∷ 634755 x+ 76
    ∷ 353953 x+ 13
    ∷ 11919 x+ 66
    ∷ 226673 x+ 73
    ∷ 381801 x+ 97
    ∷ []
