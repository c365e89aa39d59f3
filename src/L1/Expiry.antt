-- ===== src/L1/Expiry.antt =====
-- What `Get` answers after a `Set` or a `Delete`, and the counters that it adds to.
use cache_server_go.Base.{
  ℕ, ◌+◌, ◌≡◌, refl, ◌∙◌, inl, inr, ite, if_pos, none, some, Bytes, ltb, if◌then◌else◌, Bool-cases,
  dec_bytes,
}
use cache_server_go.L1.Shard.{Entry, drop, read, is_expired}
use cache_server_go.L1.Cache.{L1Cache, shard_of, on_shard, get, set, delete}
use cache_server_go.L1.Evict.{IsValid}
use cache_server_go.L1.Reads.{set-SetReads, read-on_shard-drop}
use cache_server_go.Metrics.{Metrics, add_l1_hit, add_l1_miss}

-- What a `Get` leaves at its key and answers, given the entry that it reads.
pub get_lem :
    (key : Bytes) (now : ℕ) (c : L1Cache) (m : Metrics) (e : Entry)
    → read key (shard_of key c) ≡ some e
    → let a = get key now c m in
      let old = ltb e.expires_at now in
      (a.value ≡ (if old then none else some e.value))
      × (a.metrics ≡ (if old then add_l1_miss m else add_l1_hit m))
      × (read key (shard_of key a.cache) ≡ (if old then none else some e))
unfolding get is_expired
get_lem key now c m e h = elim (Bool-cases (ltb e.expires_at now)) [
  | inl old ↦
      rw (h, get, old)
        (refl, refl, read-on_shard-drop key key c ∙ if_pos (dec_bytes key key) refl _ _)
  | inr new ↦ rw (h, get, new) (refl, refl, h)
]

-- A `Get` right after a `Set` of its key on a valid shard, at a time `later`: up to `now + ttl` it
-- returns the value, counts a hit and keeps the entry; past that it returns nothing, counts a miss
-- and has deleted the entry.
pub get-set :
    (key value : Bytes) (now later : ℕ) (c : L1Cache) (m : Metrics)
    → IsValid (shard_of key c)
    → let e : Entry = record { value = value; expires_at = now + c.ttl } in
      let a = get key later (set key value now c) m in
      let old = ltb (now + c.ttl) later in
      (a.value ≡ (if old then none else some value))
      × (a.metrics ≡ (if old then add_l1_miss m else add_l1_hit m))
      × (read key (shard_of key a.cache) ≡ (if old then none else some e))
get-set key value now later c m v =
    let x = set-SetReads key value now c v in
    get_lem key later (set key value now c) m (record { value = value; expires_at = now + c.ttl })
      (x.reads key ∙ if_pos (dec_bytes key key) refl _ _)

get_miss :
    (key : Bytes) (now : ℕ) (c : L1Cache) (m : Metrics)
    → read key (shard_of key c) ≡ none
    → get key now c m ≡ record { cache = c; metrics = add_l1_miss m; value = none }
unfolding get
get_miss key now c m h = rw (h, get)

-- A `Get` after a `Delete` of its key misses, changes nothing but the counter of misses, and every
-- other key reads as before the `Delete`.
pub get-delete :
    (key q : Bytes) (now : ℕ) (c : L1Cache) (m : Metrics)
    → let c' = delete key c in
      (get key now c' m ≡ record { cache = c'; metrics = add_l1_miss m; value = none })
      × (read q (shard_of q c') ≡ ite (dec_bytes key q) none (read q (shard_of q c)))
unfolding delete
get-delete key q now c m = (
  get_miss key now (on_shard key (drop key) c) m
      (read-on_shard-drop key key c ∙ if_pos (dec_bytes key key) refl _ _),
  read-on_shard-drop key q c,
)
