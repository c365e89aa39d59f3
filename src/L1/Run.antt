-- ===== src/L1/Run.antt =====
-- Sequences of calls on the L1 cache, and the ideal cache that they are compared with: a map with
-- the same expiry that never evicts. The calls of concurrent goroutines are atomic here; the one
-- window that the locks leave open is in L1/Race.antt.
use cache_server_go.Base.{
  ℕ, ◌+◌, Option, none, some, List, [], ◌∷◌, Bytes, ite, dec_bytes, if◌then◌else◌,
}
use cache_server_go.L1.Shard.{Entry, is_expired}
use cache_server_go.L1.Cache.{L1Cache, Answer, get, set, delete}
use cache_server_go.Metrics.{Metrics}

-- A call, with the time at which it reads the clock.
pub data Call : Type 0 where
  get_call : Bytes → ℕ → Call
  set_call : Bytes → Bytes → ℕ → Call
  delete_call : Bytes → Call

-- `Set` and `Delete` return nothing.
unfoldable pub step : Call → L1Cache → Metrics → Answer
step (get_call key now) c m = get key now c m
step (set_call key value now) c m = record {
  cache = set key value now c;
  metrics = m;
  value = none;
}
step (delete_call key) c m = record { cache = delete key c; metrics = m; value = none }

pub record Trace : Type 0 where
  pub cache : L1Cache
  pub metrics : Metrics
  pub answers : List (Option Bytes)

-- The calls in order, with their answers.
unfoldable pub run : List Call → L1Cache → Metrics → Trace
run [] c m = record { cache = c; metrics = m; answers = [] }
run (x ∷ xs) c m =
    let a = step x c m in
    let rest = run xs a.cache a.metrics in record rest { answers = a.value ∷ rest.answers }

-- The last write of each key that was not deleted since.
abbrev pub Ideal : Type 0
Ideal = Bytes → Option Entry

unfoldable pub fresh_value : ℕ → Option Entry → Option Bytes
unfolding is_expired
fresh_value now none = none
fresh_value now (some e) = if is_expired now e then none else some e.value

unfoldable pub ideal_step : ℕ → Call → Ideal → Ideal
ideal_step ttl (get_call key now) w = w
ideal_step ttl (set_call key value now) w =
    λ q. ite (dec_bytes key q) (some (record { value = value; expires_at = now + ttl })) (w q)
ideal_step ttl (delete_call key) w = λ q. ite (dec_bytes key q) none (w q)

unfoldable pub ideal_answer : Call → Ideal → Option Bytes
ideal_answer (get_call key now) w = fresh_value now (w key)
ideal_answer (set_call key value now) w = none
ideal_answer (delete_call key) w = none

unfoldable pub ideal_run : ℕ → List Call → Ideal → List (Option Bytes)
ideal_run ttl [] w = []
ideal_run ttl (x ∷ xs) w = ideal_answer x w ∷ ideal_run ttl xs (ideal_step ttl x w)

-- An answer that is right or a miss.
pub data Serves : Option Bytes → Option Bytes → Type 0 where
  miss : {o : Option Bytes} → Serves none o
  hit : (v : Bytes) → Serves (some v) (some v)

pub data ServesAll : List (Option Bytes) → List (Option Bytes) → Type 0 where
  done : ServesAll [] []
  next :
      {a b : Option Bytes} {xs ys : List (Option Bytes)}
      → Serves a b
      → ServesAll xs ys
      → ServesAll (a ∷ xs) (b ∷ ys)
