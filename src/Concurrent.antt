-- ===== src/Concurrent.antt =====
-- Requests to `Manager` of internal/cache/manager.go that run at the same time. `Group` is
-- singleflight, `Moves` one goroutine and `System` all of them. `Known` and its lemmas, up to
-- `Origins`, follow the values from where they came to the answers; `Tickets`, `Flights` and
-- `OneFetch` follow the calls of the group; `Work`, `Reaches`, `Bounded` and `Finish` lead
-- requests to their end; and `Rest` and `Alone` compare one goroutine by itself with
-- Manager/Store.antt.
pub mod Group
pub mod Moves
pub mod System
pub mod Reads
pub mod Known
pub mod Keeps
pub mod Provenance
pub mod Origins
pub mod Tickets
pub mod Flights
pub mod OneFetch
pub mod Work
pub mod Reaches
pub mod Bounded
pub mod Finish
pub mod Rest
pub mod Alone
