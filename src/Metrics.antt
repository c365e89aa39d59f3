-- ===== src/Metrics.antt =====
-- The counters of internal/metrics/metrics.go, as 64-bit patterns that wrap around.
-- `float64` is a parameter of the snapshot: see `Metrics.Snapshot`.
mod Counters
pub mod Snapshot
pub use Counters.{Metrics, fresh}
unfoldable pub use Counters.{
  add_l1_hit, add_l1_miss, add_l2_hit, add_l2_miss, add_origin_call, add_origin_error,
  add_coalesced, record_latency,
}
