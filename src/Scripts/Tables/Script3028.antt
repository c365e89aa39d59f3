-- ===== src/Scripts/Tables/Script3028.antt =====
-- The functions of sample-assets-small/script-0028.js, in their order.
mod PartA
mod PartB
mod PartC
use cache_server_go.Base.{List, ◌++◌}
use cache_server_go.Scripts.Fn.{Fn}
use PartA.{fns_3028_a}
use PartB.{fns_3028_b}
use PartC.{fns_3028_c}

unfoldable pub fns_3028 : List Fn
unfolding fns_3028_a fns_3028_b fns_3028_c
fns_3028 = fns_3028_a ++ (fns_3028_b ++ fns_3028_c)
