-- ===== src/L1/Refines.antt =====
-- The cache against the ideal one: whatever the calls, every answer is a miss or the ideal answer.
use cache_server_go.Base.{
  ℕ, ◌+◌, ◌≡◌, refl, ◌∙◌, ite, Option, none, some, List, [], ◌∷◌, Bytes, arith, Option-cases,
  Bool-cases, inl, inr, dec_bytes,
}
use cache_server_go.Base.Maps.{lookup}
use cache_server_go.L1.Shard.{Entry, drop, read, is_expired, new_shard}
use cache_server_go.L1.Cache.{
  L1Cache, per_shard, new_l1, shard_index, shard_of, on_shard, get, set, delete,
}
use cache_server_go.L1.Evict.{IsValid}
use cache_server_go.L1.Valid.{AllValid, new_l1-AllValid, step-AllValid}
use cache_server_go.L1.Reads.{without, set-SetReads, read-on_shard-drop}
use cache_server_go.L1.Run.{
  Call, get_call, set_call, delete_call, step, run, Ideal, fresh_value, ideal_step, ideal_answer,
  ideal_run, Serves, miss, hit, ServesAll, done, next,
}
use cache_server_go.Metrics.{Metrics}

-- What is cached is what the ideal cache holds.
pub record Tracks (ttl : ℕ) (c : L1Cache) (w : Ideal) : Type 0 where
  pub ttl_eq : c.ttl ≡ ttl
  pub held : (q : Bytes) (e : Entry) → read q (shard_of q c) ≡ some e → w q ≡ some e

some_of_without :
    (victim : Option Bytes) (q : Bytes) (r : Option Entry) (e : Entry)
    → without victim q r ≡ some e
    → r ≡ some e
some_of_without none q r e h = h
some_of_without (some k) q r e h = ground arith

-- What is read after a `Set` is its entry, or was read before.
read-set :
    (key value q : Bytes) (now : ℕ) (c : L1Cache) (e : Entry)
    → IsValid (shard_of key c)
    → read q (shard_of q (set key value now c)) ≡ some e
    → ite
        (dec_bytes key q)
        (some (record { value = value; expires_at = now + c.ttl }))
        (read q (shard_of q c))
      ≡ some e
read-set key value q now c e v h =
    let x = set-SetReads key value now c v in
    ground (arith, x.reads q, some_of_without x.victim q (read q (shard_of q c)) e)

set-ttl : (key value : Bytes) (now : ℕ) (c : L1Cache) → (set key value now c).ttl ≡ c.ttl
unfolding set on_shard
set-ttl key value now c = refl

drop-ttl : (key : Bytes) (c : L1Cache) → (on_shard key (drop key) c).ttl ≡ c.ttl
unfolding on_shard
drop-ttl key c = refl

Tracks-set :
    (ttl : ℕ) (key value : Bytes) (now : ℕ) (c : L1Cache) (w : Ideal)
    → IsValid (shard_of key c)
    → Tracks ttl c w
    → Tracks ttl (set key value now c) (ideal_step ttl (set_call key value now) w)
unfolding ideal_step
Tracks-set ttl key value now c w v t = record {
  ttl_eq = set-ttl key value now c ∙ t.ttl_eq;
  held = λ q e h. ground (arith, t.ttl_eq, read-set key value q now c e v h, t.held q e);
}

-- A deletion that the ideal cache does not make keeps the cache's answers right.
Tracks-drop :
    (ttl : ℕ) (key : Bytes) (c : L1Cache) (w : Ideal)
    → Tracks ttl c w
    → Tracks ttl (on_shard key (drop key) c) w
Tracks-drop ttl key c w t = record {
  ttl_eq = drop-ttl key c ∙ t.ttl_eq;
  held = λ q e h. t.held q e (ground (arith, read-on_shard-drop key q c));
}

Tracks-delete :
    (ttl : ℕ) (key : Bytes) (c : L1Cache) (w : Ideal)
    → Tracks ttl c w
    → Tracks ttl (delete key c) (ideal_step ttl (delete_call key) w)
unfolding ideal_step delete
Tracks-delete ttl key c w t = record {
  ttl_eq = drop-ttl key c ∙ t.ttl_eq;
  held = λ q e h. ground (arith, t.held q e, read-on_shard-drop key q c);
}

-- `Get` answers as the ideal cache does, or misses.
get_step :
    (ttl : ℕ) (key : Bytes) (now : ℕ) (c : L1Cache) (m : Metrics) (w : Ideal)
    → Tracks ttl c w
    → Tracks ttl (get key now c m).cache w
      × Serves (get key now c m).value (fresh_value now (w key))
unfolding get fresh_value
get_step ttl key now c m w t = elim (Option-cases (read key (shard_of key c))) [
  | inl e ↦ rw (e, get) (t, miss)
  | inr (x, e) ↦ elim (Bool-cases (is_expired now x)) [
    | inl old ↦ rw (e, get, old) (Tracks-drop ttl key c w t, miss)
    | inr new ↦ rw (e, get, new, t.held key x e, fresh_value) (t, rw new (hit x.value))
  ]
]

step-Serves :
    (ttl : ℕ) (x : Call) (c : L1Cache) (m : Metrics) (w : Ideal) (bound : ℕ)
    → AllValid bound c
    → Tracks ttl c w
    → Tracks ttl (step x c m).cache (ideal_step ttl x w)
      × Serves (step x c m).value (ideal_answer x w)
unfolding step ideal_step ideal_answer shard_of
step-Serves ttl (get_call key now) c m w bound v t = get_step ttl key now c m w t
step-Serves ttl (set_call key value now) c m w bound v t =
    (Tracks-set ttl key value now c w (v.shard (shard_index key)) t, miss)
step-Serves ttl (delete_call key) c m w bound v t = (Tracks-delete ttl key c w t, miss)

run-Serves :
    (ttl : ℕ) (xs : List Call) (c : L1Cache) (m : Metrics) (w : Ideal) (bound : ℕ)
    → AllValid bound c
    → Tracks ttl c w
    → ServesAll (run xs c m).answers (ideal_run ttl xs w)
unfolding run ideal_run
run-Serves ttl [] c m w bound v t = done
run-Serves ttl (x ∷ xs) c m w bound v t =
    let (t', s) = step-Serves ttl x c m w bound v t in
    next s (run-Serves ttl xs _ _ (ideal_step ttl x w) bound (step-AllValid bound x c m v) t')

new_l1-Tracks : (max_size ttl : ℕ) → Tracks ttl (new_l1 max_size ttl) (λ q. none)
unfolding new_l1 new_shard shard_of read lookup
new_l1-Tracks max_size ttl = record { ttl_eq = refl; held = λ q e h. absurd (cc) }

-- Whatever the calls and their clock readings, the answers of a new L1 cache refine those of an
-- unbounded map with the same TTL: each is a miss or the last value written to the key, not deleted
-- since and not expired. Eviction and lazy deletion never bring back an older value.
pub run-ServesAll :
    (max_size ttl : ℕ) (xs : List Call) (m : Metrics)
    → ServesAll (run xs (new_l1 max_size ttl) m).answers (ideal_run ttl xs (λ q. none))
run-ServesAll max_size ttl xs m =
    run-Serves ttl xs (new_l1 max_size ttl) m (λ q. none) (per_shard max_size)
      (new_l1-AllValid max_size ttl) (new_l1-Tracks max_size ttl)
