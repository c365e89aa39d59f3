-- ===== src/Grpc/Status.antt =====
-- `Stats` and `Health` of internal/grpcserver/server.go, with their responses of api/cachepb.
use cache_server_go.Base.{ℕ, ◌<◌, ◌%◌, ◌/◌, ◌^◌, ◌≡◌, Bool, true, Bytes, codes, sub64, arith}
use cache_server_go.Metrics.Snapshot.{Float}
use cache_server_go.L1.Cache as Cache
use cache_server_go.L2.{Outside}
use cache_server_go.Manager.Store.{Settings, State}
use cache_server_go.Manager.Report.{PoolStats}
use cache_server_go.Manager.Report as Manager

pub record StatsResponse (F : Type 0) : Type 0 where
  pub l1_hits : ℕ
  pub l1_misses : ℕ
  pub l1_hit_rate : F
  pub l2_hits : ℕ
  pub l2_misses : ℕ
  pub l2_hit_rate : F
  pub origin_calls : ℕ
  pub origin_errors : ℕ
  pub coalesced_calls : ℕ
  pub total_requests : ℕ
  pub avg_latency_us : F
  pub overall_hit_rate : F
  pub l1_size : ℕ
  pub l2_pool_active_conns : ℕ

pub record HealthResponse : Type 0 where
  pub status : Bytes
  pub redis_connected : Bool
  pub uptime_seconds : ℕ

-- `Health` at the time `now` of a server that started at `start_time`; the quotient stands for the
-- whole seconds of `time.Since`.
unfoldable pub health : ℕ → ℕ → HealthResponse
health start_time now = record {
  status = codes "healthy";
  redis_connected = true;
  uptime_seconds = sub64 now start_time / 1_000_000_000;
}

module _ (o : Outside) (settings : Settings) (f : Float) where
  -- `Stats`; the size of L1 is cut to an `int32`.
  unfoldable pub stats : PoolStats → State o settings → StatsResponse f.Carrier
  stats pool s =
      let st = Manager.stats o settings f pool s in
      let m = st.metrics in
      record {
        l1_hits = m.l1_hits;
        l1_misses = m.l1_misses;
        l1_hit_rate = m.l1_hit_rate;
        l2_hits = m.l2_hits;
        l2_misses = m.l2_misses;
        l2_hit_rate = m.l2_hit_rate;
        origin_calls = m.origin_calls;
        origin_errors = m.origin_errors;
        coalesced_calls = m.coalesced_calls;
        total_requests = m.total_requests;
        avg_latency_us = m.avg_latency_us;
        overall_hit_rate = m.overall_hit_rate;
        l1_size = st.l1_size % 2 ^ 32;
        l2_pool_active_conns = st.l2_conns;
      }

  -- While L1 holds fewer than 2^31 entries, the size that `Stats` reports is the number of entries.
  pub stats-l1_size :
      (pool : PoolStats) (s : State o settings)
      → Cache.stats s.l1 < 2 ^ 31
      → (stats pool s).l1_size ≡ Cache.stats s.l1
  unfolding stats Manager.stats
  stats-l1_size pool s h = omega arith
