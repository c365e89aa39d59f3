-- ===== src/L2.antt =====
-- The Redis layer of internal/cache/l2.go, and everything outside the process that a request
-- reaches. go-redis, the origin, the clock and `singleflight` are parameters. `Batch` holds the
-- operations on several keys; `Reads` compares them with those on one.
use cache_server_go.Base.{ℕ, Bool, Option, none, some, List, Bytes}
use cache_server_go.Metrics.{Metrics, add_l2_hit, add_l2_miss, add_origin_error}
pub mod Batch
pub mod Reads

-- What go-redis returns for a `GET`: a value, `redis.Nil`, or another error.
pub data Reply : Type 0 where
  found : Bytes → Reply
  absent : Reply
  failed : Reply

-- What go-redis has in a slot of the answer to an `MGET`.
pub data Slot : Type 0 where
  nil : Slot
  text : Bytes → Slot
  other : Slot

-- What `singleflight.Group.Do` makes of a call: it runs the function, with or without others that
-- wait for its result, or it waits for a call that is under way and gets its result.
pub data Flight : Type 0 where
  lead : Bool → Flight
  follow : Option Bytes → Flight

-- The world outside: its state, the clock in nanoseconds, Redis, the origin and the flights of other
-- requests. Each call may change the world, the clock with it; the server's own computing takes no
-- time.
pub record Outside : Type 1 where
  pub World : Type 0
  pub now : World → ℕ
  pub redis_get : Bytes → World → Reply × World
  pub redis_set : Bytes → Bytes → ℕ → World → Bool × World
  pub redis_del : Bytes → World → Bool × World
  pub redis_mget : List Bytes → World → Option (List Slot) × World
  pub redis_exec : List (Bytes × Bytes × ℕ) → World → Bool × World
  pub fetch : Bytes → World → Option Bytes × World
  pub flight : Bytes → World → Flight

module _ (o : Outside) where
  open o use {World, redis_get, redis_set, redis_del}

  pub record GetResult : Type 0 where
    pub value : Option Bytes
    pub metrics : Metrics
    pub world : World

  -- `L2Cache.Get`
  unfoldable pub l2_get : Bytes → Metrics → World → GetResult
  l2_get key m w =
      let (reply, w') = redis_get key w in
      elim reply [
        | found v ↦ record { value = some v; metrics = add_l2_hit m; world = w' }
        | absent ↦ record { value = none; metrics = add_l2_miss m; world = w' }
        | failed ↦ record { value = none; metrics = add_l2_miss (add_origin_error m); world = w' }
      ]

  -- `L2Cache.Set`, with the TTL of the cache, and `L2Cache.Delete`; the result is false on an error.
  abbrev pub l2_set : Bytes → Bytes → ℕ → World → Bool × World
  l2_set key value ttl w = redis_set key value ttl w

  abbrev pub l2_delete : Bytes → World → Bool × World
  l2_delete key w = redis_del key w
