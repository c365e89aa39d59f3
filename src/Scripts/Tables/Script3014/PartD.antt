-- ===== src/Scripts/Tables/Script3014/PartD.antt =====
-- The functions 450 to 450 of sample-assets-small/script-0014.js, a row for each line.
use cache_server_go.Base.{List, [], ◌∷◌}
use cache_server_go.Scripts.Fn.{Fn, ◌x-◌}

unfoldable pub fns_3014_d : List Fn
fns_3014_d = 298650 x- 90 ∷ []
