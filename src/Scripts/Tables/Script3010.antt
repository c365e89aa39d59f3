-- ===== src/Scripts/Tables/Script3010.antt =====
-- The functions of sample-assets-small/script-0010.js, in their order.
mod PartA
mod PartB
mod PartC
use cache_server_go.Base.{List, ◌++◌}
use cache_server_go.Scripts.Fn.{Fn}
use PartA.{fns_3010_a}
use PartB.{fns_3010_b}
use PartC.{fns_3010_c}

unfoldable pub fns_3010 : List Fn
unfolding fns_3010_a fns_3010_b fns_3010_c
fns_3010 = fns_3010_a ++ (fns_3010_b ++ fns_3010_c)
