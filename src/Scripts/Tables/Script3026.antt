-- ===== src/Scripts/Tables/Script3026.antt =====
-- The functions of sample-assets-small/script-0026.js, in their order.
mod PartA
mod PartB
use cache_server_go.Base.{List, ◌++◌}
use cache_server_go.Scripts.Fn.{Fn}
use PartA.{fns_3026_a}
use PartB.{fns_3026_b}

unfoldable pub fns_3026 : List Fn
unfolding fns_3026_a fns_3026_b
fns_3026 = fns_3026_a ++ fns_3026_b
