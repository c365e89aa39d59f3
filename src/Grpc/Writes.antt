-- ===== src/Grpc/Writes.antt =====
-- What `BatchSet` answers and leaves, against the writes of the manager in turn.
use cache_server_go.Base.{
  ℕ, suc, ◌+◌, ◌<◌, ◌≤◌, ◌%◌, ◌^◌, ◌≡◌, refl, ap, ◌∙◌, Bool, true, false, some, List, [], ◌∷◌, ◌++◌,
  Bytes, arith, length,
}
use cache_server_go.L1.Cache.{shard_index, shard_of}
use cache_server_go.L1.Evict.{IsValid}
use cache_server_go.L1.Valid.{AllValid, set-AllValid}
use cache_server_go.L2.{Outside}
use cache_server_go.Manager.Store as Manager
use cache_server_go.Manager.Store.{Settings, State, l1_set}
use cache_server_go.Manager.Requests.{get-set_through}
use cache_server_go.Grpc.Service.{BatchSetResponse, add_written, batch_set_from, batch_set}

-- The number of writes that Redis took, and of those that it did not.
abbrev pub taken : List Bool → ℕ
taken [] = 0
taken (true ∷ bs) = suc (taken bs)
taken (false ∷ bs) = taken bs

abbrev pub refused : List Bool → ℕ
refused [] = 0
refused (true ∷ bs) = refused bs
refused (false ∷ bs) = suc (refused bs)

-- A response with its counts.
record Counts (r₀ : BatchSetResponse) (bs : List Bool) (r : BatchSetResponse) : Type 0 where
  success : r.success_count % 2 ^ 32 ≡ (r₀.success_count + taken bs) % 2 ^ 32
  errors : r.error_count % 2 ^ 32 ≡ (r₀.error_count + refused bs) % 2 ^ 32
  success_word : r₀.success_count < 2 ^ 32 → r.success_count < 2 ^ 32
  errors_word : r₀.error_count < 2 ^ 32 → r.error_count < 2 ^ 32

module _ (o : Outside) (settings : Settings) where
  open o use {now}

  -- The manager's `Set` of each entry in turn: whether Redis took it, and the state at the end.
  abbrev pub sets : List (Bytes × Bytes) → State o settings → List Bool × State o settings
  sets [] s = ([], s)
  sets ((key, value) ∷ entries) s =
      let (done, s') = Manager.set o settings key value s in
      let (bs, end) = sets entries s' in (done ∷ bs, end)

  Counts-cons :
      (b : Bool) (bs : List Bool) (r₀ r : BatchSetResponse)
      → Counts (add_written o settings b r₀) bs r
      → Counts r₀ (b ∷ bs) r
  unfolding add_written
  Counts-cons true bs r₀ r c = record {
    success = omega (arith, c.success);
    errors = c.errors;
    success_word = λ _. c.success_word (omega arith);
    errors_word = c.errors_word;
  }
  Counts-cons false bs r₀ r c = record {
    success = c.success;
    errors = omega (arith, c.errors);
    success_word = c.success_word;
    errors_word = λ _. c.errors_word (omega arith);
  }

  batch_set_from-Counts :
      (entries : List (Bytes × Bytes)) (r : BatchSetResponse) (s : State o settings)
      → Counts r (sets entries s).0 (batch_set_from o settings entries r s).0
        × ((batch_set_from o settings entries r s).1 ≡ (sets entries s).1)
  unfolding batch_set_from
  batch_set_from-Counts [] r s = (
    record {
      success = ap (λ n. n % 2 ^ 32) (omega arith);
      errors = ap (λ n. n % 2 ^ 32) (omega arith);
      success_word = λ h. h;
      errors_word = λ h. h;
    },
    refl,
  )
  batch_set_from-Counts ((key, value) ∷ entries) r s =
      let (done, s') = Manager.set o settings key value s in
      let (c, e) = batch_set_from-Counts entries (add_written o settings done r) s' in
      (
        Counts-cons done (sets entries s').0 r
            (batch_set_from o settings entries (add_written o settings done r) s').0 c,
        e,
      )

  one_more :
      (b : Bool) (bs : List Bool) (n : ℕ)
      → taken bs + refused bs ≡ n
      → taken (b ∷ bs) + refused (b ∷ bs) ≡ suc n
  one_more true bs n h = omega (arith, h)
  one_more false bs n h = omega (arith, h)

  taken-refused :
      (entries : List (Bytes × Bytes)) (s : State o settings)
      → taken (sets entries s).0 + refused (sets entries s).0 ≡ length entries
  taken-refused [] s = refl
  taken-refused ((key, value) ∷ entries) s =
      let (done, s') = Manager.set o settings key value s in
      one_more done (sets entries s').0 (length entries) (taken-refused entries s')

  -- `BatchSet` of fewer than 2^31 entries makes the manager's `Set`s in order, and goes on after one
  -- that Redis refuses. It counts those that Redis took and those that it refused, together as many
  -- as the entries.
  pub batch_set-sets :
      (entries : List (Bytes × Bytes)) (s : State o settings)
      → length entries < 2 ^ 31
      → let (r, s') = batch_set o settings entries s in
        let (bs, end) = sets entries s in
        (s' ≡ end)
        × (r.success_count ≡ taken bs)
        × (r.error_count ≡ refused bs)
        × (r.success_count + r.error_count ≡ length entries)
  unfolding batch_set
  batch_set-sets entries s h =
      let start : BatchSetResponse = record { success_count = 0; error_count = 0 } in
      let (c, e) = batch_set_from-Counts entries start s in
      let all = taken-refused entries s in
      let small_success = c.success_word (omega arith) in
      let small_errors = c.errors_word (omega arith) in
      (e, omega (arith, c.success), omega (arith, c.errors), omega (arith, c.success, c.errors))

  sets-AllValid :
      (bound : ℕ) (entries : List (Bytes × Bytes)) (s : State o settings)
      → AllValid bound s.l1
      → AllValid bound (sets entries s).1.l1
  unfolding Manager.set l1_set
  sets-AllValid bound [] s a = a
  sets-AllValid bound ((key, value) ∷ entries) s a =
      sets-AllValid bound entries (Manager.set o settings key value s).1
        (set-AllValid bound key value (now s.world) s.l1 a)

  sets-append :
      (entries : List (Bytes × Bytes)) (key value : Bytes) (s : State o settings)
      → (sets (entries ++ ((key, value) ∷ [])) s).1
        ≡ (Manager.set o settings key value (sets entries s).1).1
  sets-append [] key value s = refl
  sets-append ((k, v) ∷ entries) key value s =
      sets-append entries key value (Manager.set o settings k v s).1

  -- `get-set_through` where the states are known up to a path.
  get_of_last :
      (key value : Bytes) (before mid after : State o settings)
      → before ≡ mid
      → after ≡ (Manager.set o settings key value mid).1
      → IsValid (shard_of key mid.l1)
      → now after.world ≤ now before.world + (before.l1).ttl
      → (Manager.get o settings key after).value ≡ some value
  get_of_last key value before mid after e e' v h =
      rw e' (get-set_through o settings key value mid v (rw (← e', ← e) h)).0

  -- After a `BatchSet` on shards that are all valid, whatever Redis took of it, a `Get` of the
  -- last key that reads the clock within the TTL of that write returns the last value.
  pub get-batch_set :
      (bound : ℕ) (entries : List (Bytes × Bytes)) (key value : Bytes) (s : State o settings)
      → AllValid bound s.l1
      → let before = (batch_set o settings entries s).1 in
        let after = (batch_set o settings (entries ++ ((key, value) ∷ [])) s).1 in
        now after.world ≤ now before.world + (before.l1).ttl
        → (Manager.get o settings key
            (batch_set o settings (entries ++ ((key, value) ∷ [])) s).1).value
          ≡ some value
  unfolding batch_set shard_of
  get-batch_set bound entries key value s a h =
      let start : BatchSetResponse = record { success_count = 0; error_count = 0 } in
      let mid = (sets entries s).1 in
      let e = (batch_set_from-Counts entries start s).1 in
      let e' =
        (batch_set_from-Counts (entries ++ ((key, value) ∷ [])) start s).1
        ∙ sets-append entries key value s in
      get_of_last key value (batch_set_from o settings entries start s).1 mid
        (batch_set_from o settings (entries ++ ((key, value) ∷ [])) start s).1 e e'
        ((sets-AllValid bound entries s a).shard (shard_index key)) h
