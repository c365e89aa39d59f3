-- ===== src/Scripts/Tables/Script3013.antt =====
-- The functions of sample-assets-small/script-0013.js, in their order.
mod PartA
mod PartB
use cache_server_go.Base.{List, ◌++◌}
use cache_server_go.Scripts.Fn.{Fn}
use PartA.{fns_3013_a}
use PartB.{fns_3013_b}

unfoldable pub fns_3013 : List Fn
unfolding fns_3013_a fns_3013_b
fns_3013 = fns_3013_a ++ fns_3013_b
