-- ===== src/L1/Race.antt =====
-- The window that the locks of `Get` leave open. `Get` reads its entry under the read lock, gives
-- the lock up, and deletes the key under the write lock if the entry it read has expired; another
-- goroutine's `Set` may run in between.
use cache_server_go.Base.{
  ℕ, ◌+◌, ◌≡◌, refl, ◌∙◌, if_pos, Option, none, some, Bytes, true, if◌then◌else◌, dec_bytes,
}
use cache_server_go.L1.Shard.{Entry, drop, read, is_expired}
use cache_server_go.L1.Cache.{L1Cache, shard_index, shard_of, on_shard, Answer, get, set}
use cache_server_go.L1.Evict.{IsValid}
use cache_server_go.L1.Valid.{AllValid, get-AllValid}
use cache_server_go.L1.Reads.{set-SetReads, read-on_shard-drop}
use cache_server_go.Metrics.{Metrics, add_l1_hit, add_l1_miss}

-- The part of `Get` after its read, for what was read.
unfoldable pub finish_get : Option Entry → Bytes → ℕ → L1Cache → Metrics → Answer
finish_get none key now c m = record { cache = c; metrics = add_l1_miss m; value = none }
finish_get (some e) key now c m =
    if is_expired now e
    then record { cache = on_shard key (drop key) c; metrics = add_l1_miss m; value = none }
    else record { cache = c; metrics = add_l1_hit m; value = some e.value }

get-finish_get_at :
    (o : Option Entry) (key : Bytes) (now : ℕ) (c : L1Cache) (m : Metrics)
    → read key (shard_of key c) ≡ o
    → get key now c m ≡ finish_get o key now c m
unfolding get finish_get
get-finish_get_at none key now c m h = rw (h, get)
get-finish_get_at (some e) key now c m h = rw (h, get)

-- `Get` is its read followed by the rest, when nothing runs in between.
pub get-finish_get :
    (key : Bytes) (now : ℕ) (c : L1Cache) (m : Metrics)
    → get key now c m ≡ finish_get (read key (shard_of key c)) key now c m
get-finish_get key now c m = get-finish_get_at (read key (shard_of key c)) key now c m refl

finish_get_drops :
    (e : Entry) (key : Bytes) (now : ℕ) (c : L1Cache) (m : Metrics)
    → is_expired now e ≡ true
    → read key (shard_of key (finish_get (some e) key now c m).cache) ≡ none
unfolding finish_get
finish_get_drops e key now c m old =
    rw old (read-on_shard-drop key key c ∙ if_pos (dec_bytes key key) refl _ _)

-- If all shards are valid, `Get` reads an expired entry, and another goroutine's `Set` of the key,
-- at any time, runs before the lazy deletion, then the entry just stored is deleted; run after the
-- `Get`, the same `Set` is kept.
pub get_race :
    (key value : Bytes) (now at : ℕ) (c : L1Cache) (m : Metrics) (e : Entry) (bound : ℕ)
    → AllValid bound c
    → read key (shard_of key c) ≡ some e
    → is_expired now e ≡ true
    → let between = finish_get (read key (shard_of key c)) key now (set key value at c) m in
      (read key (shard_of key between.cache) ≡ none)
      × (read key (shard_of key (set key value at (get key now c m).cache))
          ≡ some (record { value = value; expires_at = at + (get key now c m).cache.ttl }))
unfolding shard_of
get_race key value now at c m e bound v h old = (
  rw h (finish_get_drops e key now (set key value at c) m old),
  (set-SetReads key value at (get key now c m).cache valid).reads key
      ∙ if_pos (dec_bytes key key) refl _ _,
)
  where
    valid : IsValid (shard_of key (get key now c m).cache)
    valid = (get-AllValid bound key now c m v).shard (shard_index key)
