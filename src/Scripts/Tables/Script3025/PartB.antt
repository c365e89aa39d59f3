-- ===== src/Scripts/Tables/Script3025/PartB.antt =====
-- The functions 150 to 259 of sample-assets-small/script-0025.js, a row for each line.
use cache_server_go.Base.{List, [], ◌∷◌}
use cache_server_go.Scripts.Fn.{Fn, ◌x+◌, ◌x-◌}

unfoldable pub fns_3025_b : List Fn
fns_3025_b =
    172664 x+ 53
    ∷ 244067 x- 80
    ∷ 26484 x+ 53
    ∷ 498647 x+ 40
    ∷ 281515 x- 67
    ∷ 59437 x- 30
    ∷ 221808 x+ 99
    ∷ 350131 x+ 97
    ∷ 562904 x+ 11
    ∷ 963946 x- 96
    ∷ 557231 x+ 40
    ∷ 611665 x- 95
    ∷ 353239 x+ 83
    ∷ 178174 x+ 39
    ∷ 872570 x- 44
    ∷ 945343 x+ 29
    ∷ 893051 x- 43
    ∷ 629559 x+ 16
    ∷ 203014 x- 93
    ∷ 235053 x+ 85
    ∷ 369898 x- 42
    ∷ 929326 x+ 13
    ∷ 929500 x- 90
    ∷ 324515 x- 91
    ∷ 428680 x+ 58
    ∷ 841430 x- 33
    ∷ 865615 x- 18
    ∷ 720294 x+ 2
    ∷ 652882 x+ 93
    ∷ 751547 x+ 78
    ∷ 735998 x+ 93
    ∷ 491999 x+ 92
    ∷ 380924 x+ 31
    ∷ 875587 x- 14
    ∷ 187576 x+ 27
    ∷ 837169 x+ 82
    ∷ 542586 x- 75
    ∷ 949796 x- 32
    ∷ 548814 x- 25
    ∷ 9745 x+ 49
    ∷ 763494 x+ 20
    ∷ 819306 x- 47
    ∷ 792235 x- 45
    ∷ 620862 x- 41
    ∷ 221553 x+ 10
    ∷ 675415 x- 92
    ∷ 84981 x- 12
    ∷ 664572 x+ 63
    ∷ 840828 x+ 65
    ∷ 158082 x+ 57
    ∷ 725961 x- 9
    ∷ 97045 x- 4
    ∷ 645330 x- 9
    ∷ 997472 x+ 57
    ∷ 338827 x+ 51
    ∷ 341289 x- 58
    ∷ 885343 x+ 94
    ∷ 675433 x+ 39
    ∷ 5838 x- 13
    ∷ 985128 x- 95
    ∷ 347205 x- 7
    ∷ 935659 x- 86
    ∷ 354508 x+ 84
    ∷ 929003 x- 6
    ∷ 430780 x+ 85
    ∷ 100191 x+ 0
    ∷ 285224 x- 46
    ∷ 228600 x+ 66
    ∷ 610559 x- 96
    ∷ 257550 x+ 87
    ∷ 197742 x+ 27
    ∷ 642389 x+ 77
    ∷ 132403 x+ 69
    ∷ 577358 x- 83
    ∷ 954106 x- 17
    ∷ 629972 x+ 76
    ∷ 569034 x+ 36
    ∷ 896319 x- 63
    ∷ 776991 x- 67
    ∷ 987735 x- 77
    ∷ 642305 x+ 40
    ∷ 655332 x+ 3
    ∷ 798596 x- 20
    ∷ 501403 x- 20
    ∷ 953509 x- 96
    ∷ 14485 x- 56
    ∷ 920922 x+ 5
    ∷ 697225 x+ 42
    ∷ 470256 x+ 48
    ∷ 615496 x- 33
    ∷ 365892 x+ 10
    ∷ 959473 x+ 12
    ∷ 773893 x+ 29
    ∷ 74018 x- 65
    ∷ 321794 x+ 28
    ∷ 4943 x+ 15
    ∷ 596361 x- 98
    ∷ 424816 x- 61
    ∷ 111053 x- 24
    ∷ 456415 x- 45
    ∷ 728788 x- 46
    ∷ 330503 x- 88
    ∷ 624095 x- 72
    ∷ 514979 x+ 29
    ∷ 548916 x+ 10
    ∷ 344597 x- 3
    ∷ 638907 x- 79
    ∷ 239208 x- 25
    ∷ 475109 x- 76
    ∷ 188198 x- 83
    ∷ []
