-- ===== src/Manager/Report.antt =====
-- `Stats` of internal/cache/manager.go. The counters of the connection pool are those of go-redis.
use cache_server_go.Base.{ℕ}
use cache_server_go.Metrics.Snapshot.{Float, Snapshot, snapshot}
use cache_server_go.L1.Cache as Cache
use cache_server_go.L2.{Outside}
use cache_server_go.Manager.Store.{Settings, State}

-- What the code reads of `redis.PoolStats`; 32-bit patterns.
pub record PoolStats : Type 0 where
  pub hits : ℕ
  pub misses : ℕ
  pub total_conns : ℕ

pub record Stats (F : Type 0) : Type 0 where
  pub l1_size : ℕ
  pub l2_pool_hits : ℕ
  pub l2_pool_misses : ℕ
  pub l2_conns : ℕ
  pub metrics : Snapshot F

module _ (o : Outside) (settings : Settings) (f : Float) where
  unfoldable pub stats : PoolStats → State o settings → Stats f.Carrier
  stats pool s = record {
    l1_size = Cache.stats s.l1;
    l2_pool_hits = pool.hits;
    l2_pool_misses = pool.misses;
    l2_conns = pool.total_conns;
    metrics = snapshot f s.metrics;
  }
