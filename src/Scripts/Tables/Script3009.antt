-- ===== src/Scripts/Tables/Script3009.antt =====
-- The functions of sample-assets-small/script-0009.js, in their order.
mod PartA
mod PartB
mod PartC
use cache_server_go.Base.{List, ◌++◌}
use cache_server_go.Scripts.Fn.{Fn}
use PartA.{fns_3009_a}
use PartB.{fns_3009_b}
use PartC.{fns_3009_c}

unfoldable pub fns_3009 : List Fn
unfolding fns_3009_a fns_3009_b fns_3009_c
fns_3009 = fns_3009_a ++ (fns_3009_b ++ fns_3009_c)
