-- ===== src/Scripts/Tables/Script3025.antt =====
-- The functions of sample-assets-small/script-0025.js, in their order.
mod PartA
mod PartB
use cache_server_go.Base.{List, ◌++◌}
use cache_server_go.Scripts.Fn.{Fn}
use PartA.{fns_3025_a}
use PartB.{fns_3025_b}

unfoldable pub fns_3025 : List Fn
unfolding fns_3025_a fns_3025_b
fns_3025 = fns_3025_a ++ fns_3025_b
