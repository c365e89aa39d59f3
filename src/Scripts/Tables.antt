-- ===== src/Scripts/Tables.antt =====
-- The functions of the sample scripts sample-assets-small/script-0000.js to script-0029.js, a module
-- for each script, and the scripts together.
mod Script3000
mod Script3001
mod Script3002
mod Script3003
mod Script3004
mod Script3005
mod Script3006
mod Script3007
mod Script3008
mod Script3009
mod Script3010
mod Script3011
mod Script3012
mod Script3013
mod Script3014
mod Script3015
mod Script3016
mod Script3017
mod Script3018
mod Script3019
mod Script3020
mod Script3021
mod Script3022
mod Script3023
mod Script3024
mod Script3025
mod Script3026
mod Script3027
mod Script3028
mod Script3029
use cache_server_go.Base.{List, [], ◌∷◌}
use cache_server_go.Scripts.Fn.{Fn, Script}
use Script3000.{fns_3000}
use Script3001.{fns_3001}
use Script3002.{fns_3002}
use Script3003.{fns_3003}
use Script3004.{fns_3004}
use Script3005.{fns_3005}
use Script3006.{fns_3006}
use Script3007.{fns_3007}
use Script3008.{fns_3008}
use Script3009.{fns_3009}
use Script3010.{fns_3010}
use Script3011.{fns_3011}
use Script3012.{fns_3012}
use Script3013.{fns_3013}
use Script3014.{fns_3014}
use Script3015.{fns_3015}
use Script3016.{fns_3016}
use Script3017.{fns_3017}
use Script3018.{fns_3018}
use Script3019.{fns_3019}
use Script3020.{fns_3020}
use Script3021.{fns_3021}
use Script3022.{fns_3022}
use Script3023.{fns_3023}
use Script3024.{fns_3024}
use Script3025.{fns_3025}
use Script3026.{fns_3026}
use Script3027.{fns_3027}
use Script3028.{fns_3028}
use Script3029.{fns_3029}

-- Each script with the number in its first line, `// Generated JS #3000` for script-0000.js.
unfoldable pub all_scripts : List Script
unfolding fns_3000 fns_3001 fns_3002 fns_3003 fns_3004 fns_3005 fns_3006 fns_3007 fns_3008 fns_3009
    fns_3010 fns_3011 fns_3012 fns_3013 fns_3014 fns_3015 fns_3016 fns_3017 fns_3018 fns_3019
    fns_3020 fns_3021 fns_3022 fns_3023 fns_3024 fns_3025 fns_3026 fns_3027 fns_3028 fns_3029
all_scripts =
    record { seed = 3000; fns = fns_3000 }
    ∷ record { seed = 3001; fns = fns_3001 }
    ∷ record { seed = 3002; fns = fns_3002 }
    ∷ record { seed = 3003; fns = fns_3003 }
    ∷ record { seed = 3004; fns = fns_3004 }
    ∷ record { seed = 3005; fns = fns_3005 }
    ∷ record { seed = 3006; fns = fns_3006 }
    ∷ record { seed = 3007; fns = fns_3007 }
    ∷ record { seed = 3008; fns = fns_3008 }
    ∷ record { seed = 3009; fns = fns_3009 }
    ∷ record { seed = 3010; fns = fns_3010 }
    ∷ record { seed = 3011; fns = fns_3011 }
    ∷ record { seed = 3012; fns = fns_3012 }
    ∷ record { seed = 3013; fns = fns_3013 }
    ∷ record { seed = 3014; fns = fns_3014 }
    ∷ record { seed = 3015; fns = fns_3015 }
    ∷ record { seed = 3016; fns = fns_3016 }
    ∷ record { seed = 3017; fns = fns_3017 }
    ∷ record { seed = 3018; fns = fns_3018 }
    ∷ record { seed = 3019; fns = fns_3019 }
    ∷ record { seed = 3020; fns = fns_3020 }
    ∷ record { seed = 3021; fns = fns_3021 }
    ∷ record { seed = 3022; fns = fns_3022 }
    ∷ record { seed = 3023; fns = fns_3023 }
    ∷ record { seed = 3024; fns = fns_3024 }
    ∷ record { seed = 3025; fns = fns_3025 }
    ∷ record { seed = 3026; fns = fns_3026 }
    ∷ record { seed = 3027; fns = fns_3027 }
    ∷ record { seed = 3028; fns = fns_3028 }
    ∷ record { seed = 3029; fns = fns_3029 }
    ∷ []
