-- ===== src/Tests/Http.antt =====
-- The HTTP API: runs and instances, in the world of the manager's runs. The codec here takes only the
-- text `1` for JSON.
use mathlib.Core.Option.{some-injective}
use cache_server_go.Base.{
  ◌≡◌, refl, ap, ◌∙◌, if_pos, if_neg, true, false, Bool, none, some, [], ◌∷◌, Bytes, codes, ite,
  dec_bytes, ℕ_discrete, arith, if◌then◌else◌, ◌&&◌,
}
use cache_server_go.Base.Maps.{Map, lookup, insert, delete, has}
use cache_server_go.L1.Shard.{
  new_shard, read, evict_one, drop, is_expired, make_room, store, set_shard,
}
use cache_server_go.L1.Cache
use cache_server_go.L1.Cache.{new_l1, per_shard, shard_of, shard_index, on_shard, fnv1a}
use cache_server_go.L2.{l2_get}
use cache_server_go.Manager.Store as Manager
use cache_server_go.Manager.Store.{
  l1_set, fetched, do_origin_fetch, count_shared, in_flight, fetch_from_origin, after_l2, after_l1,
  record_since,
}
use cache_server_go.Http.Handlers.{
  Codec, json_body, put_response, get_response, get_cache, put_cache, batch_get, results_from,
  raw_message, encoded,
}
use cache_server_go.Http.Answers.{get_cache-put_cache, batch_get_of_invalid}
use cache_server_go.Tests.Manager.{world, settings, start, start-AllValid, k1, v1}

program : Unit {0}
unfolding Manager.get Manager.set l1_set fetched do_origin_fetch count_shared in_flight
    fetch_from_origin after_l2 after_l1 record_since l2_get lookup insert delete has dec_bytes
    ℕ_discrete Cache.get Cache.set new_l1 per_shard shard_of shard_index on_shard fnv1a new_shard
    read evict_one drop is_expired make_room store set_shard get_cache put_cache get_response
    put_response batch_get results_from raw_message encoded
program = tt

abbrev is_one : Bytes → Bool
is_one v = ite (dec_bytes v (codes "1")) true false

abbrev all_ones : Map Bytes → Bool
all_ones [] = true
all_ones ((k, v) ∷ m) = is_one v && all_ones m

abbrev codec : Codec
codec = record { is_valid = is_one; encode = λ m. if all_ones m then some (codes "{}") else none }

not_all_ones :
    (m : Map Bytes) (k v : Bytes) → lookup k m ≡ some v → is_one v ≡ false → all_ones m ≡ false
unfolding lookup
not_all_ones [] k v h bad = absurd (cc)
not_all_ones ((j, w) ∷ m) k v h bad = elim (dec_bytes j k) [
  | yes p ↦ first (some-injective _ _ (rw (if_pos (dec_bytes j k) p) at h))
  | no p ↦ later (not_all_ones m k v (rw (if_neg (dec_bytes j k) p) at h) bad)
]
  where
    first : w ≡ v → (is_one w && all_ones m) ≡ false
    first e = ap (λ x. is_one x && all_ones m) e ∙ ap (λ b. b && all_ones m) bad

    later : all_ones m ≡ false → (is_one w && all_ones m) ≡ false
    later e = ground arith

fails :
    (m : Map Bytes) (k v : Bytes)
    → lookup k m ≡ some v
    → codec.is_valid v ≡ false
    → codec.encode m ≡ none
fails m k v h bad = ap (λ b. if b then some (codes "{}") else none) (not_all_ones m k v h bad)

get_cache-put_cache_example :
    let (r, s') = put_cache world settings k1 (some v1) start in
    (r ≡ put_response true) × ((get_cache world settings k1 s').0 ≡ json_body 200 v1)
unfolding shard_of
get_cache-put_cache_example =
    get_cache-put_cache world settings k1 v1 start (λ e. cc) (start-AllValid.shard (shard_index k1))
      (omega arith)

batch_get_of_invalid_example :
    (batch_get world settings codec (some (codes "k2" ∷ k1 ∷ [])) start).0 ≡ json_body 200 []
unfolding program
batch_get_of_invalid_example =
    batch_get_of_invalid world settings codec fails (codes "k2" ∷ []) k1 v1 start refl refl
