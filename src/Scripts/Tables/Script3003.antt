-- ===== src/Scripts/Tables/Script3003.antt =====
-- The functions of sample-assets-small/script-0003.js, in their order.
mod PartA
mod PartB
use cache_server_go.Base.{List, ◌++◌}
use cache_server_go.Scripts.Fn.{Fn}
use PartA.{fns_3003_a}
use PartB.{fns_3003_b}

unfoldable pub fns_3003 : List Fn
unfolding fns_3003_a fns_3003_b
fns_3003 = fns_3003_a ++ fns_3003_b
