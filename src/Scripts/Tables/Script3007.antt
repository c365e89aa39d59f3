-- ===== src/Scripts/Tables/Script3007.antt =====
-- The functions of sample-assets-small/script-0007.js, in their order.
mod PartA
mod PartB
mod PartC
use cache_server_go.Base.{List, ◌++◌}
use cache_server_go.Scripts.Fn.{Fn}
use PartA.{fns_3007_a}
use PartB.{fns_3007_b}
use PartC.{fns_3007_c}

unfoldable pub fns_3007 : List Fn
unfolding fns_3007_a fns_3007_b fns_3007_c
fns_3007 = fns_3007_a ++ (fns_3007_b ++ fns_3007_c)
