-- ===== src/Scripts/Tables/Script3004.antt =====
-- The functions of sample-assets-small/script-0004.js, in their order.
mod PartA
mod PartB
mod PartC
use cache_server_go.Base.{List, ◌++◌}
use cache_server_go.Scripts.Fn.{Fn}
use PartA.{fns_3004_a}
use PartB.{fns_3004_b}
use PartC.{fns_3004_c}

unfoldable pub fns_3004 : List Fn
unfolding fns_3004_a fns_3004_b fns_3004_c
fns_3004 = fns_3004_a ++ (fns_3004_b ++ fns_3004_c)
