-- ===== src/Scripts/Tables/Script3015.antt =====
-- The functions of sample-assets-small/script-0015.js, in their order.
mod PartA
mod PartB
use cache_server_go.Base.{List, ◌++◌}
use cache_server_go.Scripts.Fn.{Fn}
use PartA.{fns_3015_a}
use PartB.{fns_3015_b}

unfoldable pub fns_3015 : List Fn
unfolding fns_3015_a fns_3015_b
fns_3015 = fns_3015_a ++ fns_3015_b
