-- ===== src/Base/Maps.antt =====
-- Go's `map[string]V` as an association list in its iteration order: a write replaces the entry of
-- the key or adds one, `delete` drops the key.
mod Laws
mod Defs
mod Totals
pub use Laws.*
unfoldable pub use Totals.{sum_by}
pub use Totals.*
unfoldable pub use Defs.{lookup, insert, delete, has}
pub use Defs.{Map, size}
