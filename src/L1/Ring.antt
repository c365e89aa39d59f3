-- ===== src/L1/Ring.antt =====
-- The ring of keys of a shard only grows: neither `Delete` nor the eviction takes a key off it.
use mathlib.Core.List.{append-nil, append_assoc}
use cache_server_go.Base.{
  ℕ, zero, suc, ◌<◌, ◌≡◌, List, [], ◌∷◌, ◌++◌, Bytes, arith, length, length-replicate, replicate,
  ap, sym, ◌∙◌,
}
use cache_server_go.L1.Shard.{Shard, new_shard, drop, set_shard, make_room, store}
use cache_server_go.Base.Maps.{lookup, insert, delete, has}

-- `Set` and `Delete` of one key, `n` times.
unfoldable pub churn : ℕ → Bytes → Bytes → ℕ → ℕ → Shard → Shard
churn ttl key value now zero s = s
churn ttl key value now (suc n) s =
    churn ttl key value now n (drop key (set_shard ttl key value now s))

abbrev empty_shard : ℕ → ℕ → List Bytes → Shard
empty_shard max_size evict_idx keys = record {
  items = [];
  max_size = max_size;
  evict_idx = evict_idx;
  keys = keys;
}

-- One round on a shard that stores nothing.
round :
    (ttl : ℕ) (key value : Bytes) (now max_size evict_idx : ℕ) (keys : List Bytes)
    → 0 < max_size
    → drop key (set_shard ttl key value now (empty_shard max_size evict_idx keys))
      ≡ empty_shard max_size evict_idx (keys ++ (key ∷ []))
unfolding drop set_shard make_room store has lookup insert delete
round ttl key value now max_size evict_idx keys h = ground arith

churn_empty :
    (ttl : ℕ) (key value : Bytes) (now n max_size evict_idx : ℕ) (keys : List Bytes)
    → 0 < max_size
    → churn ttl key value now n (empty_shard max_size evict_idx keys)
      ≡ empty_shard max_size evict_idx (keys ++ replicate n key)
unfolding churn
churn_empty ttl key value now zero max_size evict_idx keys h =
    ap (empty_shard max_size evict_idx) (sym (append-nil keys))
churn_empty ttl key value now (suc n) max_size evict_idx keys h =
    ap (churn ttl key value now n) (round ttl key value now max_size evict_idx keys h)
    ∙ churn_empty ttl key value now n max_size evict_idx (keys ++ (key ∷ [])) h
    ∙ ap (empty_shard max_size evict_idx) (append_assoc keys (key ∷ []) (replicate n key))

-- After `n` rounds of `Set` and `Delete` of one key a new shard stores nothing and its ring has `n`
-- entries, whatever the shard's bound: the ring grows without limit.
pub churn-length :
    (ttl : ℕ) (key value : Bytes) (now n max_size : ℕ)
    → 0 < max_size
    → let s = churn ttl key value now n (new_shard max_size) in (length s.keys ≡ n) × (s.items ≡ [])
unfolding new_shard
churn-length ttl key value now n max_size h =
    let e = churn_empty ttl key value now n max_size 0 [] h in
    (ap (λ s. length s.keys) e ∙ length-replicate n key, ap (λ s. s.items) e)
