-- ===== src/Scripts/Tables/Script3002.antt =====
-- The functions of sample-assets-small/script-0002.js, in their order.
mod PartA
mod PartB
use cache_server_go.Base.{List, ◌++◌}
use cache_server_go.Scripts.Fn.{Fn}
use PartA.{fns_3002_a}
use PartB.{fns_3002_b}

unfoldable pub fns_3002 : List Fn
unfolding fns_3002_a fns_3002_b
fns_3002 = fns_3002_a ++ fns_3002_b
