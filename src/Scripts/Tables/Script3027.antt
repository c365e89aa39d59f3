-- ===== src/Scripts/Tables/Script3027.antt =====
-- The functions of sample-assets-small/script-0027.js, in their order.
mod PartA
mod PartB
mod PartC
mod PartD
use cache_server_go.Base.{List, ◌++◌}
use cache_server_go.Scripts.Fn.{Fn}
use PartA.{fns_3027_a}
use PartB.{fns_3027_b}
use PartC.{fns_3027_c}
use PartD.{fns_3027_d}

unfoldable pub fns_3027 : List Fn
unfolding fns_3027_a fns_3027_b fns_3027_c fns_3027_d
fns_3027 = fns_3027_a ++ (fns_3027_b ++ (fns_3027_c ++ fns_3027_d))
