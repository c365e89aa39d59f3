-- ===== src/Scripts/Tables/Script3022.antt =====
-- The functions of sample-assets-small/script-0022.js, in their order.
mod PartA
mod PartB
use cache_server_go.Base.{List, ◌++◌}
use cache_server_go.Scripts.Fn.{Fn}
use PartA.{fns_3022_a}
use PartB.{fns_3022_b}

unfoldable pub fns_3022 : List Fn
unfolding fns_3022_a fns_3022_b
fns_3022 = fns_3022_a ++ fns_3022_b
