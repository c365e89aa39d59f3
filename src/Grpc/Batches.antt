-- ===== src/Grpc/Batches.antt =====
-- What `BatchGet` answers, against the calls of the manager in turn.
use cache_server_go.Base.{
  ℕ, suc, ◌+◌, ◌<◌, ◌%◌, ◌^◌, ◌≡◌, refl, ap, ◌∙◌, ite, Option, none, some, List, [], ◌∷◌, Bytes,
  arith, length, dec_bytes,
}
use cache_server_go.Base.Maps.{lookup, lookup-insert}
use cache_server_go.L2.{Outside}
use cache_server_go.Manager.Store as Manager
use cache_server_go.Manager.Store.{Settings, State}
use cache_server_go.Grpc.Service.{
  CacheEntry, BatchGetResponse, entry_of, add_answer, batch_get_from, batch_get,
}

-- The number of answers that hold a value, and of those that do not.
abbrev pub values : List (Bytes × Option Bytes) → ℕ
values [] = 0
values ((k, none) ∷ answers) = values answers
values ((k, some v) ∷ answers) = suc (values answers)

abbrev pub failures : List (Bytes × Option Bytes) → ℕ
failures [] = 0
failures ((k, none) ∷ answers) = suc (failures answers)
failures ((k, some v) ∷ answers) = failures answers

-- The last answer for a key, after one from before.
abbrev pub last_answer : Bytes → Option CacheEntry → List (Bytes × Option Bytes) → Option CacheEntry
last_answer q before [] = before
last_answer q before ((k, v) ∷ answers) =
    last_answer q (ite (dec_bytes k q) (some (entry_of v)) before) answers

-- A response with its hits, its misses and the last answer for each key.
pub record Answers (r₀ : BatchGetResponse) (answers : List (Bytes × Option Bytes))
    (r : BatchGetResponse) : Type 0 where
  pub hits : r.hits % 2 ^ 32 ≡ (r₀.hits + values answers) % 2 ^ 32
  pub misses : r.misses % 2 ^ 32 ≡ (r₀.misses + failures answers) % 2 ^ 32
  pub hits_word : r₀.hits < 2 ^ 32 → r.hits < 2 ^ 32
  pub misses_word : r₀.misses < 2 ^ 32 → r.misses < 2 ^ 32
  pub entries : (q : Bytes) → lookup q r.entries ≡ last_answer q (lookup q r₀.entries) answers

module _ (o : Outside) (settings : Settings) where
  -- The manager's `Get` of each key in turn: the answers and the state at the end.
  abbrev pub gets : List Bytes → State o settings → List (Bytes × Option Bytes) × State o settings
  gets [] s = ([], s)
  gets (key ∷ keys) s =
      let g = Manager.get o settings key s in
      let (answers, s') = gets keys g.state in ((key, g.value) ∷ answers, s')

  Answers-cons :
      (key : Bytes) (v : Option Bytes) (answers : List (Bytes × Option Bytes))
      (r₀ r : BatchGetResponse)
      → Answers (add_answer o settings key v r₀) answers r
      → Answers r₀ ((key, v) ∷ answers) r
  unfolding add_answer
  Answers-cons key none answers r₀ r a = record {
    hits = a.hits;
    misses = omega (arith, a.misses);
    hits_word = a.hits_word;
    misses_word = λ _. a.misses_word (omega arith);
    entries = λ q.
        a.entries q
        ∙ ap (λ b. last_answer q b answers) (lookup-insert key q (entry_of none) r₀.entries);
  }
  Answers-cons key (some v) answers r₀ r a = record {
    hits = omega (arith, a.hits);
    misses = a.misses;
    hits_word = λ _. a.hits_word (omega arith);
    misses_word = a.misses_word;
    entries = λ q.
        a.entries q
        ∙ ap (λ b. last_answer q b answers) (lookup-insert key q (entry_of (some v)) r₀.entries);
  }

  batch_get_from-Answers :
      (keys : List Bytes) (r : BatchGetResponse) (s : State o settings)
      → Answers r (gets keys s).0 (batch_get_from o settings keys r s).0
        × ((batch_get_from o settings keys r s).1 ≡ (gets keys s).1)
  unfolding batch_get_from
  batch_get_from-Answers [] r s = (
    record {
      hits = ap (λ n. n % 2 ^ 32) (omega arith);
      misses = ap (λ n. n % 2 ^ 32) (omega arith);
      hits_word = λ h. h;
      misses_word = λ h. h;
      entries = λ q. refl;
    },
    refl,
  )
  batch_get_from-Answers (key ∷ keys) r s =
      let g = Manager.get o settings key s in
      let (a, e) = batch_get_from-Answers keys (add_answer o settings key g.value r) g.state in
      (
        Answers-cons key g.value (gets keys g.state).0 r
            (batch_get_from o settings keys (add_answer o settings key g.value r) g.state).0 a,
        e,
      )

  one_more :
      (key : Bytes) (v : Option Bytes) (answers : List (Bytes × Option Bytes)) (n : ℕ)
      → values answers + failures answers ≡ n
      → values ((key, v) ∷ answers) + failures ((key, v) ∷ answers) ≡ suc n
  one_more key none answers n h = omega (arith, h)
  one_more key (some v) answers n h = omega (arith, h)

  values-failures :
      (keys : List Bytes) (s : State o settings)
      → values (gets keys s).0 + failures (gets keys s).0 ≡ length keys
  values-failures [] s = refl
  values-failures (key ∷ keys) s =
      let g = Manager.get o settings key s in
      one_more key g.value (gets keys g.state).0 (length keys) (values-failures keys g.state)

  -- `BatchGet` of fewer than 2^31 keys makes the manager's `Get`s in order and ends in their state.
  -- The hits are the calls that gave a value, the misses the others, and together as many as the
  -- keys; the entry of a key is what the last call for it gave, and there is no other entry.
  pub batch_get-gets :
      (keys : List Bytes) (s : State o settings)
      → length keys < 2 ^ 31
      → let (r, s') = batch_get o settings keys s in
        let (answers, end) = gets keys s in
        (s' ≡ end)
        × (r.hits ≡ values answers)
        × (r.misses ≡ failures answers)
        × (r.hits + r.misses ≡ length keys)
        × ((q : Bytes) → lookup q r.entries ≡ last_answer q none answers)
  unfolding batch_get lookup
  batch_get-gets keys s h =
      let start : BatchGetResponse = record { entries = []; hits = 0; misses = 0 } in
      let (a, e) = batch_get_from-Answers keys start s in
      let all = values-failures keys s in
      let small_hits = a.hits_word (omega arith) in
      let small_misses = a.misses_word (omega arith) in
      (
        e,
        omega (arith, a.hits),
        omega (arith, a.misses),
        omega (arith, a.hits, a.misses),
        a.entries,
      )
