-- ===== src/Scripts/Tables/Script3023.antt =====
-- The functions of sample-assets-small/script-0023.js, in their order.
mod PartA
mod PartB
use cache_server_go.Base.{List, ◌++◌}
use cache_server_go.Scripts.Fn.{Fn}
use PartA.{fns_3023_a}
use PartB.{fns_3023_b}

unfoldable pub fns_3023 : List Fn
unfolding fns_3023_a fns_3023_b
fns_3023 = fns_3023_a ++ fns_3023_b
