-- ===== src/Scripts/Tables/Script3012.antt =====
-- The functions of sample-assets-small/script-0012.js, in their order.
mod PartA
mod PartB
use cache_server_go.Base.{List, ◌++◌}
use cache_server_go.Scripts.Fn.{Fn}
use PartA.{fns_3012_a}
use PartB.{fns_3012_b}

unfoldable pub fns_3012 : List Fn
unfolding fns_3012_a fns_3012_b
fns_3012 = fns_3012_a ++ fns_3012_b
