-- ===== src/Scripts/Tables/Script3011.antt =====
-- The functions of sample-assets-small/script-0011.js, in their order.
mod PartA
mod PartB
mod PartC
use cache_server_go.Base.{List, ◌++◌}
use cache_server_go.Scripts.Fn.{Fn}
use PartA.{fns_3011_a}
use PartB.{fns_3011_b}
use PartC.{fns_3011_c}

unfoldable pub fns_3011 : List Fn
unfolding fns_3011_a fns_3011_b fns_3011_c
fns_3011 = fns_3011_a ++ (fns_3011_b ++ fns_3011_c)
