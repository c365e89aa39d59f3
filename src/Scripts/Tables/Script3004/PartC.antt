-- ===== src/Scripts/Tables/Script3004/PartC.antt =====
-- The functions 300 to 391 of sample-assets-small/script-0004.js, a row for each line.
use cache_server_go.Base.{List, [], ◌∷◌}
use cache_server_go.Scripts.Fn.{Fn, ◌x+◌, ◌x-◌}

unfoldable pub fns_3004_c : List Fn
fns_3004_c =
    13465 x+ 56
    ∷ 532357 x- 42
    ∷ 681895 x+ 78
    ∷ 658422 x+ 43
    ∷ 451311 x- 39
    ∷ 946906 x+ 28
    ∷ 893531 x+ 44
    ∷ 340068 x+ 25
    ∷ 211118 x- 30
    ∷ 509434 x+ 37
    ∷ 67408 x+ 3
    ∷ 235201 x- 89
    ∷ 810420 x- 46
    ∷ 466530 x- 77
    ∷ 709581 x- 17
    ∷ 783247 x- 47
    ∷ 155249 x- 76
    ∷ 233133 x+ 40
    ∷ 441304 x- 95
    ∷ 994822 x+ 63
    ∷ 861682 x+ 55
    ∷ 888295 x- 41
    ∷ 926868 x+ 84
    ∷ 586542 x+ 59
    ∷ 444044 x- 20
    ∷ 374073 x+ 86
    ∷ 437281 x- 17
    ∷ 47986 x- 91
    ∷ 533788 x+ 84
    ∷ 162029 x+ 97
    ∷ 626577 x- 77
    ∷ 479290 x+ 91
    ∷ 339680 x- 75
    ∷ 120949 x- 60
    ∷ 534320 x+ 99
    ∷ 246769 x- 94
    ∷ 480591 x- 50
    ∷ 132581 x- 78
    ∷ 452295 x+ 87
    ∷ 52104 x+ 25
    ∷ 122628 x- 92
    ∷ 886452 x- 80
    ∷ 122126 x- 88
    ∷ 377968 x- 61
    ∷ 424177 x- 53
    ∷ 961890 x- 61
    ∷ 757569 x- 49
    ∷ 14833 x- 35
    ∷ 642334 x+ 100
    ∷ 943497 x- 64
    ∷ 385788 x- 91
    ∷ 887170 x+ 77
    ∷ 478940 x- 94
    ∷ 477232 x- 28
    ∷ 756059 x+ 5
    ∷ 598055 x- 62
    ∷ 728648 x- 91
    ∷ 756465 x- 48
    ∷ 789614 x+ 81
    ∷ 28320 x+ 15
    ∷ 982411 x+ 21
    ∷ 195639 x- 81
    ∷ 173433 x- 3
    ∷ 370469 x+ 67
    ∷ 43228 x+ 84
    ∷ 402952 x+ 34
    ∷ 800303 x- 96
    ∷ 304192 x+ 71
    ∷ 996122 x- 84
    ∷ 35486 x+ 63
    ∷ 672825 x- 98
    ∷ 864194 x- 61
    ∷ 904834 x+ 37
    ∷ 238880 x- 23
    ∷ 950004 x+ 42
    ∷ 379746 x- 78
    ∷ 171615 x- 2
    ∷ 474772 x+ 80
    ∷ 843996 x- 43
    ∷ 602096 x- 19
    ∷ 980308 x+ 94
    ∷ 389911 x- 95
    ∷ 210672 x+ 42
    ∷ 687129 x+ 55
    ∷ 121645 x+ 30
    ∷ 115619 x+ 57
    ∷ 871667 x- 11
    ∷ 373289 x- 82
    ∷ 181943 x- 62
    ∷ 437455 x+ 57
    ∷ 911327 x+ 57
    ∷ 849761 x+ 9
    ∷ []
