-- ===== src/Scripts/Tables/Script3001/PartC.antt =====
-- The functions 300 to 312 of sample-assets-small/script-0001.js, a row for each line.
use cache_server_go.Base.{List, [], ◌∷◌}
use cache_server_go.Scripts.Fn.{Fn, ◌x+◌, ◌x-◌}

unfoldable pub fns_3001_c : List Fn
fns_3001_c =
    740348 x+ 80
    ∷ 184582 x+ 69
    ∷ 577733 x+ 51
    ∷ 758542 x+ 82
    ∷ 248483 x+ 88
    ∷ 860223 x- 5
    ∷ 274227 x- 24
    ∷ 92478 x+ 32
    ∷ 626365 x- 65
    ∷ 23270 x+ 62
    ∷ 31086 x- 55
    ∷ 566076 x- 69
    ∷ 723391 x+ 2
    ∷ []
