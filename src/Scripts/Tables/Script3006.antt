-- ===== src/Scripts/Tables/Script3006.antt =====
-- The functions of sample-assets-small/script-0006.js, in their order.
mod PartA
mod PartB
use cache_server_go.Base.{List, ◌++◌}
use cache_server_go.Scripts.Fn.{Fn}
use PartA.{fns_3006_a}
use PartB.{fns_3006_b}

unfoldable pub fns_3006 : List Fn
unfolding fns_3006_a fns_3006_b
fns_3006 = fns_3006_a ++ fns_3006_b
