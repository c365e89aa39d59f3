-- ===== src/Scripts/Tables/Script3016.antt =====
-- The functions of sample-assets-small/script-0016.js, in their order.
mod PartA
mod PartB
mod PartC
mod PartD
use cache_server_go.Base.{List, ◌++◌}
use cache_server_go.Scripts.Fn.{Fn}
use PartA.{fns_3016_a}
use PartB.{fns_3016_b}
use PartC.{fns_3016_c}
use PartD.{fns_3016_d}

unfoldable pub fns_3016 : List Fn
unfolding fns_3016_a fns_3016_b fns_3016_c fns_3016_d
fns_3016 = fns_3016_a ++ (fns_3016_b ++ (fns_3016_c ++ fns_3016_d))
