-- ===== src/Metrics/Counters.antt =====
-- `type Metrics` of internal/metrics/metrics.go and the calls of `Add` on it. Each counter is an
-- `atomic.Int64`, here its bit pattern.
use cache_server_go.Base.{ℕ, add64}

pub record Metrics : Type 0 where
  pub l1_hits : ℕ
  pub l1_misses : ℕ
  pub l2_hits : ℕ
  pub l2_misses : ℕ
  pub origin_calls : ℕ
  pub origin_errors : ℕ
  pub coalesced_calls : ℕ
  pub total_requests : ℕ
  pub total_latency_ns : ℕ

-- `Global` before the first request.
abbrev pub fresh : Metrics
fresh = record {
  l1_hits = 0;
  l1_misses = 0;
  l2_hits = 0;
  l2_misses = 0;
  origin_calls = 0;
  origin_errors = 0;
  coalesced_calls = 0;
  total_requests = 0;
  total_latency_ns = 0;
}

unfoldable pub add_l1_hit : Metrics → Metrics
add_l1_hit m = record m { l1_hits = add64 m.l1_hits 1 }

unfoldable pub add_l1_miss : Metrics → Metrics
add_l1_miss m = record m { l1_misses = add64 m.l1_misses 1 }

unfoldable pub add_l2_hit : Metrics → Metrics
add_l2_hit m = record m { l2_hits = add64 m.l2_hits 1 }

unfoldable pub add_l2_miss : Metrics → Metrics
add_l2_miss m = record m { l2_misses = add64 m.l2_misses 1 }

unfoldable pub add_origin_call : Metrics → Metrics
add_origin_call m = record m { origin_calls = add64 m.origin_calls 1 }

unfoldable pub add_origin_error : Metrics → Metrics
add_origin_error m = record m { origin_errors = add64 m.origin_errors 1 }

unfoldable pub add_coalesced : Metrics → Metrics
add_coalesced m = record m { coalesced_calls = add64 m.coalesced_calls 1 }

-- `RecordLatency`; the duration is a 64-bit pattern too.
unfoldable pub record_latency : ℕ → Metrics → Metrics
record_latency d m = record m {
  total_latency_ns = add64 m.total_latency_ns d;
  total_requests = add64 m.total_requests 1;
}
