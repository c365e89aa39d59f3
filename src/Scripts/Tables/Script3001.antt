-- ===== src/Scripts/Tables/Script3001.antt =====
-- The functions of sample-assets-small/script-0001.js, in their order.
mod PartA
mod PartB
mod PartC
use cache_server_go.Base.{List, ◌++◌}
use cache_server_go.Scripts.Fn.{Fn}
use PartA.{fns_3001_a}
use PartB.{fns_3001_b}
use PartC.{fns_3001_c}

unfoldable pub fns_3001 : List Fn
unfolding fns_3001_a fns_3001_b fns_3001_c
fns_3001 = fns_3001_a ++ (fns_3001_b ++ fns_3001_c)
