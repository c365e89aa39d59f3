-- ===== src/Tests/L1.antt =====
-- The L1 cache: runs and instances.
use Prim.Native.Nat.{max}
use cache_server_go.Base.{
  ◌+◌, ◌≤◌, ◌≡◌, refl, ite, none, some, List, [], ◌∷◌, arith, codes, Bytes, length, dec_bytes,
  ℕ_discrete,
}
use cache_server_go.Base.Maps.{lookup, delete, insert, has}
use cache_server_go.Metrics.{fresh, add_l1_miss}
use cache_server_go.L1.Shard.{
  Entry, Shard, new_shard, evict_one, read, drop, make_room, store, set_shard, is_expired,
}
use cache_server_go.L1.Cache.{
  L1Cache, per_shard, new_l1, shard_index, shard_of, on_shard, get, set, stats, fnv1a,
}
use cache_server_go.L1.Cache
use cache_server_go.L1.Evict.{IsValid, Evicts, evict_one-Evicts}
use cache_server_go.L1.Bounds.{new_shard-IsValid, set_shard-IsValid}
use cache_server_go.L1.Reads.{SetReads, set-SetReads}
use cache_server_go.L1.Run.{Call, get_call, set_call, delete_call, step, run, ideal_run, ServesAll}
use cache_server_go.L1.Valid.{AllValid, new_l1-AllValid, set-AllValid, stats-run-le}
use cache_server_go.L1.Refines.{run-ServesAll}
use cache_server_go.L1.Expiry.{get-set, get-delete}
use cache_server_go.L1.Race.{finish_get, get_race}
use cache_server_go.L1.Ring.{churn, churn-length}

program : Unit {0}
unfolding new_shard evict_one drop read is_expired make_room store set_shard new_l1 per_shard fnv1a
    shard_index shard_of on_shard get set step Cache.delete run lookup insert delete has dec_bytes
    ℕ_discrete
program = tt

-- FNV-1a of the empty key is its offset basis, and that of "a" is 0xe40c292c.
hashes : (fnv1a [] ≡ 0x811c9dc5) × (fnv1a (codes "a") ≡ 0xe40c292c)
unfolding fnv1a
hashes = (refl, refl)

abbrev k1 : Bytes
k1 = codes "key1"

abbrev v1 : Bytes
v1 = codes "value1"

abbrev calls : List Call
calls =
    get_call k1 0
    ∷ set_call k1 v1 10
    ∷ get_call k1 15
    ∷ get_call k1 16
    ∷ set_call k1 v1 20
    ∷ delete_call k1
    ∷ get_call k1 21
    ∷ []

-- TTL 5: a miss, then a hit at the last moment, an expiry, and a miss after a deletion.
answers :
    (run calls (new_l1 1000 5) fresh).answers
    ≡ none ∷ none ∷ some v1 ∷ none ∷ none ∷ none ∷ none ∷ []
unfolding program
answers = refl

abbrev one : Shard
one = set_shard 5 k1 v1 10 (new_shard 1)

one-IsValid : IsValid one
one-IsValid = set_shard-IsValid 5 k1 v1 10 (new_shard 1) (new_shard-IsValid 1 (omega arith))

evict_one-Evicts_example : Evicts one (evict_one one)
unfolding program
evict_one-Evicts_example =
    evict_one-Evicts one k1 (record { value = v1; expires_at = 15 }) one-IsValid refl

abbrev cache : L1Cache
cache = set k1 v1 10 (new_l1 1000 5)

cache-AllValid : AllValid (per_shard 1000) cache
cache-AllValid = set-AllValid (per_shard 1000) k1 v1 10 (new_l1 1000 5) (new_l1-AllValid 1000 5)

cache-IsValid : IsValid (shard_of k1 cache)
unfolding shard_of
cache-IsValid = cache-AllValid.shard (shard_index k1)

stats-run-le_example : stats (run calls (new_l1 1000 5) fresh).cache ≤ max 1000 16_384
stats-run-le_example = stats-run-le calls 1000 5 fresh

run-ServesAll_example :
    ServesAll (run calls (new_l1 1000 5) fresh).answers (ideal_run 5 calls (λ q. none))
run-ServesAll_example = run-ServesAll 1000 5 calls fresh

set-SetReads_example :
    SetReads k1
      (record { value = codes "new"; expires_at = 20 + cache.ttl })
      cache
      (set k1 (codes "new") 20 cache)
set-SetReads_example = set-SetReads k1 (codes "new") 20 cache cache-IsValid

get-set_example :
    let e : Entry = record { value = v1; expires_at = 12 + cache.ttl } in
    let a = get k1 30 (set k1 v1 12 cache) fresh in
    (a.value ≡ none) × (a.metrics ≡ add_l1_miss fresh) × (read k1 (shard_of k1 a.cache) ≡ none)
unfolding program
get-set_example = get-set k1 v1 12 30 cache fresh cache-IsValid

get-delete_example :
    let c' = Cache.delete k1 cache in
    (get k1 12 c' fresh ≡ record { cache = c'; metrics = add_l1_miss fresh; value = none })
    × (read (codes "key2") (shard_of (codes "key2") c')
        ≡ ite
            (dec_bytes k1 (codes "key2"))
            none
            (read (codes "key2") (shard_of (codes "key2") cache)))
get-delete_example = get-delete k1 (codes "key2") 12 cache fresh

get_race_example :
    let between =
      finish_get (read k1 (shard_of k1 cache)) k1 99 (set k1 (codes "new") 98 cache) fresh in
    (read k1 (shard_of k1 between.cache) ≡ none)
    × (read k1 (shard_of k1 (set k1 (codes "new") 98 (get k1 99 cache fresh).cache))
        ≡ some
            (record { value = codes "new"; expires_at = 98 + (get k1 99 cache fresh).cache.ttl }))
unfolding program
get_race_example =
    get_race k1 (codes "new") 99 98 cache fresh (record { value = v1; expires_at = 15 })
      (per_shard 1000) cache-AllValid refl refl

churn-length_example :
    let s = churn 5 k1 v1 0 1000 (new_shard 64) in (length s.keys ≡ 1000) × (s.items ≡ [])
churn-length_example = churn-length 5 k1 v1 0 1000 64 (omega arith)
