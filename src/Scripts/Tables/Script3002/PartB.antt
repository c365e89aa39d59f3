-- ===== src/Scripts/Tables/Script3002/PartB.antt =====
-- The functions 150 to 170 of sample-assets-small/script-0002.js, a row for each line.
use cache_server_go.Base.{List, [], ◌∷◌}
use cache_server_go.Scripts.Fn.{Fn, ◌x+◌, ◌x-◌}

unfoldable pub fns_3002_b : List Fn
fns_3002_b =
    855734 x- 100
    ∷ 534362 x+ 32
    ∷ 512578 x+ 13
    ∷ 352272 x+ 62
    ∷ 884909 x- 76
    ∷ 944740 x+ 59
    ∷ 162797 x- 24
    ∷ 5545 x+ 93
    ∷ 144676 x+ 11
    ∷ 156787 x- 92
    ∷ 966456 x- 57
    ∷ 288980 x+ 69
    ∷ 115184 x+ 48
    ∷ 378169 x- 38
    ∷ 424164 x- 41
    ∷ 976412 x- 60
    ∷ 869151 x+ 90
    ∷ 139214 x- 1
    ∷ 231271 x- 46
    ∷ 563724 x+ 54
    ∷ 219672 x+ 98
    ∷ []
