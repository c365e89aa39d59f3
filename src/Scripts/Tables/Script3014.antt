-- ===== src/Scripts/Tables/Script3014.antt =====
-- The functions of sample-assets-small/script-0014.js, in their order.
mod PartA
mod PartB
mod PartC
mod PartD
use cache_server_go.Base.{List, ◌++◌}
use cache_server_go.Scripts.Fn.{Fn}
use PartA.{fns_3014_a}
use PartB.{fns_3014_b}
use PartC.{fns_3014_c}
use PartD.{fns_3014_d}

unfoldable pub fns_3014 : List Fn
unfolding fns_3014_a fns_3014_b fns_3014_c fns_3014_d
fns_3014 = fns_3014_a ++ (fns_3014_b ++ (fns_3014_c ++ fns_3014_d))
