-- ===== src/Config.antt =====
-- The configuration of internal/config/config.go. `Env` holds its code, and `Utf8` what `range`
-- makes of a text; `Slices` proves what the comma-separated lists give, with `Joined` for lists that
-- were joined.
pub mod Utf8
pub mod Joined
pub mod Env
pub mod Slices
