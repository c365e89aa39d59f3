-- ===== src/Scripts/Tables/Script3024.antt =====
-- The functions of sample-assets-small/script-0024.js, in their order.
mod PartA
mod PartB
use cache_server_go.Base.{List, ◌++◌}
use cache_server_go.Scripts.Fn.{Fn}
use PartA.{fns_3024_a}
use PartB.{fns_3024_b}

unfoldable pub fns_3024 : List Fn
unfolding fns_3024_a fns_3024_b
fns_3024 = fns_3024_a ++ fns_3024_b
