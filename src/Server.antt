-- ===== src/Server.antt =====
-- The start of the server: `main` of cmd/server/main.go up to its `ListenAndServe`, with `NewL2` of
-- internal/cache/l2.go. `Start` holds the code; `Redis` proves which Redis it runs with.
pub mod Start
pub mod Redis
