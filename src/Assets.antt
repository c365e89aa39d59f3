-- ===== src/Assets.antt =====
-- The assets of internal/binaryhandler/handler.go. `Cache` holds the in-memory cache; `Oldest`,
-- `Budget`, `Writes` and `Laws` prove what it promises, and `History` what sequences of calls do.
-- `Handlers` holds the handlers of requests that change state; `Paths` and `Serves` prove what they
-- answer. `Reports` holds the others, and `Listing` reads an answer back.
pub mod Cache
pub mod Oldest
pub mod Budget
pub mod Writes
pub mod Laws
pub mod History
pub mod Handlers
pub mod Reports
pub mod Listing
pub mod Paths
pub mod Serves
