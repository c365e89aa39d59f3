-- ===== src/Scripts/Tables/Script3021.antt =====
-- The functions of sample-assets-small/script-0021.js, in their order.
mod PartA
mod PartB
mod PartC
use cache_server_go.Base.{List, ◌++◌}
use cache_server_go.Scripts.Fn.{Fn}
use PartA.{fns_3021_a}
use PartB.{fns_3021_b}
use PartC.{fns_3021_c}

unfoldable pub fns_3021 : List Fn
unfolding fns_3021_a fns_3021_b fns_3021_c
fns_3021 = fns_3021_a ++ (fns_3021_b ++ fns_3021_c)
