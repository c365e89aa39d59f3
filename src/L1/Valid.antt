-- ===== src/L1/Valid.antt =====
-- Every operation keeps all 256 shards of the L1 cache valid, so `Stats` is bounded.
use Prim.Native.Nat.{max}
use cache_server_go.Base.{
  ℕ, zero, suc, ◌*◌, ◌≤◌, ◌≡◌, refl, ite, List, [], ◌∷◌, Bytes, arith, Option-cases, Bool-cases,
  inl, inr, ℕ_discrete,
}
use cache_server_go.Base.Maps.{size}
use cache_server_go.L1.Shard.{Shard, drop, read, is_expired, set_shard, new_shard}
use cache_server_go.L1.Cache.{
  L1Cache, per_shard, new_l1, shard_index, shard_of, on_shard, get, set, delete, total_size, stats,
}
use cache_server_go.L1.Evict.{IsValid}
use cache_server_go.L1.Bounds.{new_shard-IsValid, drop-IsValid, set_shard-IsValid}
use cache_server_go.L1.Reads.{set_shard-Stores}
use cache_server_go.L1.Run.{Call, get_call, set_call, delete_call, step, run}
use cache_server_go.Metrics.{Metrics}

-- Every shard is valid and has the same bound.
pub record AllValid (bound : ℕ) (c : L1Cache) : Type 0 where
  pub shard : (i : ℕ) → IsValid (c.shards i)
  pub same : (i : ℕ) → (c.shards i).max_size ≡ bound

on_shard-AllValid :
    (bound : ℕ) (key : Bytes) (f : Shard → Shard) (c : L1Cache)
    → ((s : Shard) → IsValid s → IsValid (f s))
    → ((s : Shard) → IsValid s → (f s).max_size ≡ s.max_size)
    → AllValid bound c
    → AllValid bound (on_shard key f c)
unfolding on_shard
on_shard-AllValid bound key f c keep size v = record {
  shard = λ i.
      elim (ℕ_discrete i (shard_index key))
        as (λ d. IsValid (ite d (f (c.shards i)) (c.shards i))) [
          | yes p ↦ keep (c.shards i) (v.shard i)
          | no p ↦ v.shard i
        ];
  same = λ i. ground (arith, size (c.shards i) (v.shard i), v.same i);
}

pub new_l1-AllValid : (n ttl : ℕ) → AllValid (per_shard n) (new_l1 n ttl)
unfolding new_l1 per_shard new_shard
new_l1-AllValid n ttl = record {
  shard = λ i. new_shard-IsValid (per_shard n) (ground arith);
  same = λ i. refl;
}

drop-max_size : (key : Bytes) (s : Shard) → (drop key s).max_size ≡ s.max_size
unfolding drop
drop-max_size key s = refl

pub delete-AllValid :
    (bound : ℕ) (key : Bytes) (c : L1Cache)
    → AllValid bound c
    → AllValid bound (on_shard key (drop key) c)
delete-AllValid bound key c v =
    on_shard-AllValid bound key (drop key) c (drop-IsValid key) (λ s _. drop-max_size key s) v

pub set-AllValid :
    (bound : ℕ) (key value : Bytes) (now : ℕ) (c : L1Cache)
    → AllValid bound c
    → AllValid bound (set key value now c)
unfolding set
set-AllValid bound key value now c v =
    on_shard-AllValid bound key (set_shard c.ttl key value now) c
      (set_shard-IsValid c.ttl key value now)
      (λ s h. (set_shard-Stores c.ttl key value now s h).max_size) v

pub get-AllValid :
    (bound : ℕ) (key : Bytes) (now : ℕ) (c : L1Cache) (m : Metrics)
    → AllValid bound c
    → AllValid bound (get key now c m).cache
unfolding get
get-AllValid bound key now c m v = elim (Option-cases (read key (shard_of key c))) [
  | inl e ↦ rw (e, get) v
  | inr (x, e) ↦ elim (Bool-cases (is_expired now x)) [
    | inl old ↦ rw (e, get, old) (delete-AllValid bound key c v)
    | inr new ↦ rw (e, get, new) v
  ]
]

pub step-AllValid :
    (bound : ℕ) (x : Call) (c : L1Cache) (m : Metrics)
    → AllValid bound c
    → AllValid bound (step x c m).cache
unfolding step delete
step-AllValid bound (get_call key now) c m v = get-AllValid bound key now c m v
step-AllValid bound (set_call key value now) c m v = set-AllValid bound key value now c v
step-AllValid bound (delete_call key) c m v = delete-AllValid bound key c v

pub run-AllValid :
    (bound : ℕ) (xs : List Call) (c : L1Cache) (m : Metrics)
    → AllValid bound c
    → AllValid bound (run xs c m).cache
unfolding run
run-AllValid bound [] c m v = v
run-AllValid bound (x ∷ xs) c m v = run-AllValid bound xs _ _ (step-AllValid bound x c m v)

total_size-le : (bound n : ℕ) (c : L1Cache) → AllValid bound c → total_size n c ≤ n * bound
unfolding total_size
total_size-le bound zero c v = omega arith
total_size-le bound (suc n) c v =
    omega (arith, total_size-le bound n c v, (v.shard n).bounded, v.same n)

per_shard-le : (n : ℕ) → 256 * per_shard n ≤ max n 16_384
unfolding per_shard
per_shard-le n = ground arith

-- Whatever the calls, a cache made for `max_size` entries never reports more than `max_size`
-- entries, or 16384 where that is more (256 shards of at least 64 entries each).
pub stats-run-le :
    (xs : List Call) (max_size ttl : ℕ) (m : Metrics)
    → stats (run xs (new_l1 max_size ttl) m).cache ≤ max max_size 16_384
unfolding stats
stats-run-le xs max_size ttl m = omega (
  arith,
  per_shard-le max_size,
  total_size-le (per_shard max_size) 256 (run xs (new_l1 max_size ttl) m).cache
      (run-AllValid (per_shard max_size) xs (new_l1 max_size ttl) m (new_l1-AllValid max_size ttl)),
)
