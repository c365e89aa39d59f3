-- ===== src/Scripts/Tables/Script3016/PartD.antt =====
-- The functions 450 to 462 of sample-assets-small/script-0016.js, a row for each line.
use cache_server_go.Base.{List, [], ◌∷◌}
use cache_server_go.Scripts.Fn.{Fn, ◌x+◌, ◌x-◌}

unfoldable pub fns_3016_d : List Fn
fns_3016_d =
    877519 x- 96
    ∷ 226198 x- 25
    ∷ 149667 x+ 39
    ∷ 645189 x- 1
    ∷ 968419 x- 37
    ∷ 252851 x- 92
    ∷ 462271 x- 21
    ∷ 863976 x- 75
    ∷ 447423 x- 88
    ∷ 38117 x+ 86
    ∷ 125163 x+ 45
    ∷ 534896 x+ 11
    ∷ 632246 x+ 69
    ∷ []
