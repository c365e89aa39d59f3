-- ===== src/Tests/Grpc.antt =====
-- The gRPC service: runs and instances, in the world of the manager's runs.
use cache_server_go.Base.{
  ◌+◌, ◌≡◌, refl, none, some, List, [], ◌∷◌, Bytes, codes, dec_bytes, ℕ_discrete, arith, add64,
}
use cache_server_go.Base.Maps.{lookup, insert, delete, has}
use cache_server_go.L1.Shard.{
  new_shard, read, evict_one, drop, is_expired, make_room, store, set_shard,
}
use cache_server_go.L1.Cache
use cache_server_go.L1.Cache.{new_l1, per_shard, shard_of, shard_index, on_shard, fnv1a}
use cache_server_go.L2.{l2_get}
use cache_server_go.Manager.Store as Manager
use cache_server_go.Manager.Store.{
  l1_set, fetched, do_origin_fetch, count_shared, in_flight, fetch_from_origin, after_l2, after_l1,
  record_since,
}
use cache_server_go.Grpc.Service.{
  get, batch_get, batch_get_from, add_answer, batch_set, batch_set_from, add_written,
  metrics_interceptor, entry_of,
}
use cache_server_go.Grpc.Batches.{gets, values, failures, last_answer, batch_get-gets}
use cache_server_go.Grpc.Writes.{sets, taken, refused, batch_set-sets, get-batch_set}
use cache_server_go.Grpc.Counts.{metrics_interceptor-get, metrics_interceptor-batch_get}
use cache_server_go.Tests.Manager.{world, settings, start, start-AllValid, k1, v1}

abbrev k2 : Bytes
k2 = codes "k2"

abbrev keys : List Bytes
keys = k1 ∷ k2 ∷ k1 ∷ []

abbrev pairs : List (Bytes × Bytes)
pairs = (k1, v1) ∷ (k2, v1) ∷ []

program : Unit {0}
unfolding Manager.get Manager.set l1_set fetched do_origin_fetch count_shared in_flight
    fetch_from_origin after_l2 after_l1 record_since l2_get lookup insert delete has dec_bytes
    ℕ_discrete Cache.get Cache.set new_l1 per_shard shard_of shard_index on_shard fnv1a new_shard
    read evict_one drop is_expired make_room store set_shard batch_get batch_get_from add_answer
    batch_set batch_set_from add_written entry_of
program = tt

-- The origin knows the first key only, and the answer to its second request comes from L1.
answered :
    let r = (batch_get world settings keys start).0 in
    (r.hits ≡ 2) × (r.misses ≡ 1) × (lookup k2 r.entries ≡ some (entry_of none))
unfolding program
answered = (refl, refl, refl)

batch_get-gets_example :
    let (r, s') = batch_get world settings keys start in
    let (answers, end) = gets world settings keys start in
    (s' ≡ end)
    × (r.hits ≡ values answers)
    × (r.misses ≡ failures answers)
    × (r.hits + r.misses ≡ 3)
    × ((q : Bytes) → lookup q r.entries ≡ last_answer q none answers)
batch_get-gets_example = batch_get-gets world settings keys start (omega arith)

batch_set-sets_example :
    let (r, s') = batch_set world settings pairs start in
    let (bs, end) = sets world settings pairs start in
    (s' ≡ end)
    × (r.success_count ≡ taken bs)
    × (r.error_count ≡ refused bs)
    × (r.success_count + r.error_count ≡ 2)
batch_set-sets_example = batch_set-sets world settings pairs start (omega arith)

get-batch_set_example :
    (Manager.get world settings k2
      (batch_set world settings ((k1, v1) ∷ (k2, k1) ∷ []) start).1).value
    ≡ some k1
get-batch_set_example =
    get-batch_set world settings (per_shard 1000) ((k1, v1) ∷ []) k2 k1 start start-AllValid
      (omega arith)

metrics_interceptor-get_example :
    (metrics_interceptor world settings (get world settings k1) start).1.metrics.total_requests
    ≡ add64 0 2
unfolding program
metrics_interceptor-get_example = metrics_interceptor-get world settings k1 start

metrics_interceptor-batch_get_example :
    (metrics_interceptor world settings
      (batch_get world settings keys)
      start).1.metrics.total_requests
    ≡ add64 0 4
metrics_interceptor-batch_get_example = metrics_interceptor-batch_get world settings keys start
