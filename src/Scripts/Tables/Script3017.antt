-- ===== src/Scripts/Tables/Script3017.antt =====
-- The functions of sample-assets-small/script-0017.js, in their order.
mod PartA
mod PartB
use cache_server_go.Base.{List, ◌++◌}
use cache_server_go.Scripts.Fn.{Fn}
use PartA.{fns_3017_a}
use PartB.{fns_3017_b}

unfoldable pub fns_3017 : List Fn
unfolding fns_3017_a fns_3017_b
fns_3017 = fns_3017_a ++ fns_3017_b
