-- ===== src/Scripts.antt =====
-- The sample scripts of sample-assets-small/ and the generator of scripts/generate_small_assets.sh
-- that prints them. `Fn` holds the functions and their calls, `Tables` the functions of every
-- script.
pub mod Fn
pub mod Decimal
pub mod Page
pub mod Calls
pub mod Loaded
pub mod Tables
