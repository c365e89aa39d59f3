-- ===== src/Concurrent/Reads.antt =====
-- What can be read of L1 after a change was there before, or is what was set.
use mathlib.Core.Option.{some-injective}
use cache_server_go.Base.{
  ℕ, ◌+◌, ◌≡◌, refl, ap, sym, ◌∙◌, ◌⊎◌, inl, inr, ite, Option, none, some, Bytes, arith, dec_bytes,
  ℕ_discrete, Bool-cases,
}
use cache_server_go.L1.Shard.{Entry, read, is_expired}
use cache_server_go.L1.Cache
use cache_server_go.L1.Cache.{L1Cache, shard_of, shard_index, on_shard, new_l1, per_shard}
use cache_server_go.L1.Race.{finish_get}
use cache_server_go.L1.Reads.{without, SetReads, set-SetReads, read-on_shard-drop}
use cache_server_go.L1.Valid.{AllValid, delete-AllValid}
use cache_server_go.Metrics.{Metrics}

pub finish_get-reads :
    (e : Option Entry) (key : Bytes) (now : ℕ) (c : L1Cache) (m : Metrics) (q : Bytes) (x : Entry)
    → read q (shard_of q (finish_get e key now c m).cache) ≡ some x
    → read q (shard_of q c) ≡ some x
unfolding finish_get
finish_get-reads none key now c m q x h = h
finish_get-reads (some e) key now c m q x h = ground (arith, read-on_shard-drop key q c)

pub finish_get-value :
    (e : Option Entry) (key : Bytes) (now : ℕ) (c : L1Cache) (m : Metrics) (v : Bytes)
    → (finish_get e key now c m).value ≡ some v
    → (x : Entry) × (e ≡ some x) × (x.value ≡ v)
unfolding finish_get
finish_get-value none key now c m v h = absurd (cc)
finish_get-value (some e) key now c m v h = (e, refl, ground arith)

pub finish_get-AllValid :
    (bound : ℕ) (e : Option Entry) (key : Bytes) (now : ℕ) (c : L1Cache) (m : Metrics)
    → AllValid bound c
    → AllValid bound (finish_get e key now c m).cache
unfolding finish_get
finish_get-AllValid bound none key now c m a = a
finish_get-AllValid bound (some e) key now c m a = elim (Bool-cases (is_expired now e)) [
  | inl old ↦ rw old (delete-AllValid bound key c a)
  | inr new ↦ rw new a
]

pub delete-reads :
    (key : Bytes) (c : L1Cache) (q : Bytes) (x : Entry)
    → read q (shard_of q (Cache.delete key c)) ≡ some x
    → read q (shard_of q c) ≡ some x
unfolding Cache.delete
delete-reads key c q x h = ground (arith, read-on_shard-drop key q c)

without-reads :
    (victim : Option Bytes) (q : Bytes) (r : Option Entry) (x : Entry)
    → without victim q r ≡ some x
    → r ≡ some x
unfolding without
without-reads victim q r x h = ground arith

pub set-reads :
    (bound : ℕ) (key v : Bytes) (now : ℕ) (c : L1Cache) (q : Bytes) (x : Entry)
    → AllValid bound c
    → read q (shard_of q (Cache.set key v now c)) ≡ some x
    → ((q ≡ key) × (x.value ≡ v)) ⊎ (read q (shard_of q c) ≡ some x)
unfolding shard_of
set-reads bound key v now c q x a h = cases (dec_bytes key q) (sym (x'.reads q) ∙ h)
  where
    e : Entry
    e = record { value = v; expires_at = now + c.ttl }

    x' : SetReads key e c (Cache.set key v now c)
    x' = set-SetReads key v now c (a.shard (shard_index key))

    old : Option Entry
    old = read q (shard_of q c)

    kept :
        (d : Dec (shard_index q ≡ shard_index key))
        → ite d (without x'.victim q old) old ≡ some x
        → old ≡ some x
    kept (yes p) h = without-reads x'.victim q old x h
    kept (no p) h = h

    cases :
        (d : Dec (key ≡ q))
        → ite d
            (some e)
            (ite (ℕ_discrete (shard_index q) (shard_index key)) (without x'.victim q old) old)
          ≡ some x
        → ((q ≡ key) × (x.value ≡ v)) ⊎ (old ≡ some x)
    cases (yes p) h = inl (sym p, ap (λ (z : Entry). z.value) (sym (some-injective _ _ h)))
    cases (no p) h = inr (kept (ℕ_discrete (shard_index q) (shard_index key)) h)
