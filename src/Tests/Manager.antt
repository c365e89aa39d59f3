-- ===== src/Tests/Manager.antt =====
-- The two-tier cache: runs and instances, in a world with a clock that stands still, a Redis that
-- keeps what it is given, and an origin that knows one key.
use cache_server_go.Base.{
  ℕ, ◌≡◌, refl, true, false, Option, none, some, List, [], ◌∷◌, map, Bytes, codes, ite, dec_bytes,
  ℕ_discrete, if_pos, arith, add64,
}
use cache_server_go.Base.Maps.{Map, lookup, insert, delete, has, lookup-insert}
use cache_server_go.Metrics.{fresh}
use cache_server_go.L1.Shard.{
  new_shard, read, evict_one, drop, is_expired, make_room, store, set_shard,
}
use cache_server_go.L1.Cache
use cache_server_go.L1.Cache.{new_l1, per_shard, shard_of, shard_index, on_shard, fnv1a}
use cache_server_go.L1.Valid.{AllValid, new_l1-AllValid}
use cache_server_go.L2.Reads.{slot_of}
use cache_server_go.L2.{Outside, Reply, found, absent, lead, l2_get}
use cache_server_go.Manager.Store.{
  State, Settings, get, set, invalidate, back_populate, l1_set, fetched, do_origin_fetch,
  count_shared, in_flight, fetch_from_origin, after_l2, after_l1, record_since,
}
use cache_server_go.Manager.Requests.{get-set_through, get-total_requests}
use cache_server_go.Manager.Populates.{IsCached, get-IsCached}
use cache_server_go.Manager.Background.{FromRedis, get-back_populate-invalidate}

abbrev pub reply : Option Bytes → Reply
reply none = absent
reply (some v) = found v

abbrev pub k1 : Bytes
k1 = codes "k1"

abbrev pub v1 : Bytes
v1 = codes "v1"

abbrev execute : List (Bytes × Bytes × ℕ) → Map Bytes → Map Bytes
execute [] w = w
execute ((key, value, ttl) ∷ commands) w = execute commands (insert key value w)

abbrev pub world : Outside
world = record {
  World = Map Bytes;
  now = λ w. 7;
  redis_get = λ key w. (reply (lookup key w), w);
  redis_set = λ key value ttl w. (true, insert key value w);
  redis_del = λ key w. (true, delete key w);
  redis_mget = λ keys w. (some (map (λ k. slot_of (lookup k w)) keys), w);
  redis_exec = λ commands w. (true, execute commands w);
  fetch = λ key w. (ite (dec_bytes key k1) (some v1) none, w);
  flight = λ key w. lead false;
}

abbrev pub settings : Settings
settings = record { l2_ttl = 300; use_sf = true }

program : Unit {0}
unfolding get set invalidate back_populate l1_set fetched do_origin_fetch count_shared in_flight
    fetch_from_origin after_l2 after_l1 record_since l2_get lookup insert delete has dec_bytes
    ℕ_discrete Cache.get Cache.set Cache.delete new_l1 per_shard shard_of shard_index on_shard fnv1a
    new_shard read evict_one drop is_expired make_room store set_shard
program = tt

abbrev pub start : State world settings
start = record { l1 = new_l1 1000 5; metrics = fresh; pending = []; world = [] }

-- A miss in both layers fetches from the origin and leaves a write to Redis to make.
first : (get world settings k1 start).value ≡ some v1
unfolding program
first = refl

abbrev fetched_once : State world settings
fetched_once = record start { pending = (k1, v1) ∷ [] }

left : (get world settings k1 start).state.pending ≡ (k1, v1) ∷ []
unfolding program
left = refl

pub start-AllValid : AllValid (per_shard 1000) start.l1
start-AllValid = new_l1-AllValid 1000 5

get-set_through_example :
    let s' = (set world settings k1 v1 start).1 in
    let r = get world settings k1 s' in
    (r.value ≡ some v1) × ((r.state).world ≡ s'.world) × ((r.state).pending ≡ [])
unfolding shard_of
get-set_through_example =
    get-set_through world settings k1 v1 start (start-AllValid.shard (shard_index k1)) (omega arith)

get-total_requests_example : (get world settings k1 start).state.metrics.total_requests ≡ add64 0 1
get-total_requests_example = get-total_requests world settings k1 start

get-IsCached_example : IsCached k1 v1 (get world settings k1 start).state.l1
unfolding program
get-IsCached_example =
    get-IsCached world settings k1 v1 (per_shard 1000) start start-AllValid (λ w r e. cc) refl

stored_reply : (w : Map Bytes) → reply (lookup k1 (insert k1 v1 w)) ≡ found v1
stored_reply w = rw (lookup-insert k1 k1 v1 w, if_pos (dec_bytes k1 k1) refl) refl

get-back_populate-invalidate_example :
    FromRedis world settings k1 v1
      (back_populate world settings (invalidate world settings k1 fetched_once).1)
      (get world settings k1
        (back_populate world settings (invalidate world settings k1 fetched_once).1))
get-back_populate-invalidate_example =
    get-back_populate-invalidate world settings k1 v1 [] fetched_once refl stored_reply
