-- ===== src/Scripts/Tables/Script3006/PartB.antt =====
-- The functions 150 to 158 of sample-assets-small/script-0006.js, a row for each line.
use cache_server_go.Base.{List, [], ◌∷◌}
use cache_server_go.Scripts.Fn.{Fn, ◌x+◌, ◌x-◌}

unfoldable pub fns_3006_b : List Fn
fns_3006_b =
    69033 x- 95
    ∷ 403580 x+ 78
    ∷ 29948 x+ 69
    ∷ 62868 x- 8
    ∷ 207244 x- 25
    ∷ 33674 x- 35
    ∷ 138434 x- 5
    ∷ 37816 x- 6
    ∷ 60202 x- 23
    ∷ []
