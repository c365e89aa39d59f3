-- ===== src/Scripts/Tables/Script3005.antt =====
-- The functions of sample-assets-small/script-0005.js, in their order.
mod PartA
mod PartB
use cache_server_go.Base.{List, ◌++◌}
use cache_server_go.Scripts.Fn.{Fn}
use PartA.{fns_3005_a}
use PartB.{fns_3005_b}

unfoldable pub fns_3005 : List Fn
unfolding fns_3005_a fns_3005_b
fns_3005 = fns_3005_a ++ fns_3005_b
