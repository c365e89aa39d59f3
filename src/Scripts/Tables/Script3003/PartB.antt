-- ===== src/Scripts/Tables/Script3003/PartB.antt =====
-- The functions 150 to 191 of sample-assets-small/script-0003.js, a row for each line.
use cache_server_go.Base.{List, [], ◌∷◌}
use cache_server_go.Scripts.Fn.{Fn, ◌x+◌, ◌x-◌}

unfoldable pub fns_3003_b : List Fn
fns_3003_b =
    507815 x+ 27
    ∷ 689222 x- 96
    ∷ 744499 x+ 66
    ∷ 556490 x- 64
    ∷ 875414 x+ 76
    ∷ 742897 x- 20
    ∷ 415559 x- 26
    ∷ 883525 x- 64
    ∷ 206076 x- 91
    ∷ 1435 x+ 36
    ∷ 146943 x+ 40
    ∷ 482438 x- 85
    ∷ 860668 x+ 23
    ∷ 163397 x+ 93
    ∷ 226180 x- 45
    ∷ 646426 x+ 23
    ∷ 646610 x+ 50
    ∷ 403534 x+ 18
    ∷ 33729 x+ 8
    ∷ 898646 x+ 72
    ∷ 368976 x+ 31
    ∷ 108186 x- 12
    ∷ 415096 x+ 92
    ∷ 245058 x+ 93
    ∷ 746551 x+ 20
    ∷ 133632 x+ 3
    ∷ 800590 x- 38
    ∷ 846220 x+ 67
    ∷ 733062 x- 62
    ∷ 676036 x- 40
    ∷ 996025 x+ 82
    ∷ 324078 x- 51
    ∷ 252870 x- 66
    ∷ 88851 x+ 92
    ∷ 50117 x- 10
    ∷ 818840 x+ 19
    ∷ 863131 x+ 32
    ∷ 273270 x+ 2
    ∷ 88772 x- 78
    ∷ 681466 x+ 26
    ∷ 920122 x- 89
    ∷ 781886 x+ 73
    ∷ []
