-- ===== src/Tests/Group.antt =====
-- A group that runs one call of a key at a time and numbers its calls: what singleflight does.
use mathlib.Core.Option.{some-injective}
use cache_server_go.Base.{
  ℕ, ◌+◌, ◌≡◌, ◌≢◌, ◌⊎◌, inl, inr, refl, ap, sym, ◌∙◌, Bool, true, false, Option, none, some, Bytes,
  ite, if_pos, if_neg, dec_bytes, ℕ_discrete, ◌==◌, arith,
}
use cache_server_go.Concurrent.Group.{Group, GroupLaws, Role, leads, waits}

pub record Calls : Type 0 where
  pub open_call : Bytes → Option ℕ
  pub ended : Bytes → ℕ → Option (Option Bytes)
  pub waited : Bytes → ℕ → Bool
  pub count : ℕ

abbrev at_key {ℓ} : {A : Type ℓ} → Bytes → A → (Bytes → A) → Bytes → A
at_key k a f j = ite (dec_bytes j k) a (f j)

abbrev at_number {ℓ} : {A : Type ℓ} → ℕ → A → (ℕ → A) → ℕ → A
at_number n a f m = ite (ℕ_discrete m n) a (f m)

abbrev is_call : Option ℕ → ℕ → Bool
is_call none n = false
is_call (some m) n = m == n

abbrev join_at : Option ℕ → Bytes → Calls → Role (Bytes × ℕ) × Calls
join_at none key t = (
  leads (key, t.count),
  record t { open_call = at_key key (some t.count) t.open_call; count = t.count + 1 },
)
join_at (some n) key t =
    (waits (key, n), record t { waited = at_key key (at_number n true (t.waited key)) t.waited })

abbrev join : Bytes → Calls → Role (Bytes × ℕ) × Calls
join key t = join_at (t.open_call key) key t

abbrev is_open : Bytes × ℕ → Calls → Bool
is_open n t = is_call (t.open_call n.0) n.1

abbrev finish : Bytes × ℕ → Option Bytes → Calls → Calls
finish (key, n) r t = record t {
  open_call = at_key key none t.open_call;
  ended = at_key key (at_number n (some r) (t.ended key)) t.ended;
}

abbrev pub group : Group
group = record {
  Ticket = Bytes × ℕ;
  Table = Calls;
  key_of = λ n. n.0;
  join = join;
  finish = finish;
  result = λ n t. t.ended n.0 n.1;
  is_open = is_open;
  is_shared = λ n t. t.waited n.0 n.1;
}

is_call_self : (n : ℕ) → is_call (some n) n ≡ true
is_call_self n = ground arith

-- A call is open when it is the one that its key has.
is_call-eq : (o : Option ℕ) (n : ℕ) → is_call o n ≡ true → o ≡ some n
is_call-eq none n x = absurd (cc)
is_call-eq (some k) n x = ap some (same k x)
  where
    same : (k : ℕ) → k == n ≡ true → k ≡ n
    same k x = ground arith

is_call-none : (o : Option ℕ) (n : ℕ) → o ≡ none → is_call o n ≡ false
is_call-none none n e = refl
is_call-none (some k) n e = absurd (cc)

at_key_self {ℓ} : {A : Type ℓ} (k : Bytes) (a : A) (f : Bytes → A) → at_key k a f k ≡ a
at_key_self k a f = if_pos (dec_bytes k k) refl a (f k)

at_key-cases {ℓ} :
    {A : Type ℓ} (k j : Bytes) (a : A) (f : Bytes → A)
    → ((j ≡ k) × (at_key k a f j ≡ a)) ⊎ (at_key k a f j ≡ f j)
at_key-cases k j a f = elim (dec_bytes j k) [
  | yes e ↦ inl (e, if_pos (dec_bytes j k) e a (f j))
  | no n ↦ inr (if_neg (dec_bytes j k) n a (f j))
]

leads_new :
    (o : Option ℕ) (key : Bytes) (n : Bytes × ℕ) (t : Calls)
    → t.open_call key ≡ o
    → (join_at o key t).0 ≡ leads n
    → (n.0 ≡ key) × (is_open n t ≡ false) × (is_open n (join_at o key t).1 ≡ true)
leads_new none key n t h e = rw (sym (ticket e)) (
  refl,
  is_call-none (t.open_call key) t.count h,
  rw (at_key_self key (some t.count) t.open_call) (is_call_self t.count),
)
  where
    ticket : leads (key, t.count) ≡ leads n → (key, t.count) ≡ n
    ticket e = cc
leads_new (some k) key n t h e = absurd (cc)

waits_open :
    (o : Option ℕ) (key : Bytes) (n : Bytes × ℕ) (t : Calls)
    → t.open_call key ≡ o
    → (join_at o key t).0 ≡ waits n
    → (n.0 ≡ key) × (is_open n (join_at o key t).1 ≡ true)
waits_open none key n t h e = absurd (cc)
waits_open (some k) key n t h e = rw (sym (ticket e)) (refl, rw h (is_call_self k))
  where
    ticket : waits (key, k) ≡ waits n → (key, k) ≡ n
    ticket e = cc

open_of_join :
    (o : Option ℕ) (key : Bytes) (m : Bytes × ℕ) (t : Calls)
    → is_open m (join_at o key t).1 ≡ true
    → ((join_at o key t).0 ≡ leads m) ⊎ (is_open m t ≡ true)
open_of_join none key (k, n) t x = elim (at_key-cases key k (some t.count) t.open_call) [
  | inl (e, at) ↦ inl (cc (e, some-injective _ _ (sym at ∙ is_call-eq _ n x)))
  | inr at ↦ inr (ap (λ c. is_call c n) (sym at) ∙ x)
]
open_of_join (some c) key m t x = inr x

join-open :
    (o : Option ℕ) (key : Bytes) (m : Bytes × ℕ) (t : Calls)
    → t.open_call key ≡ o
    → is_open m t ≡ true
    → is_open m (join_at o key t).1 ≡ true
join-open none key (k, n) t h x = elim (at_key-cases key k (some t.count) t.open_call) [
  | inl (e, at) ↦ absurd (cc (h, e, is_call-eq (t.open_call k) n x))
  | inr at ↦ ap (λ c. is_call c n) at ∙ x
]
join-open (some c) key m t h x = x

open_of_finish :
    (m n : Bytes × ℕ) (r : Option Bytes) (t : Calls)
    → is_open m (finish n r t) ≡ true
    → (m ≢ n) × (is_open m t ≡ true)
open_of_finish (k, a) (j, b) r t x = elim (at_key-cases j k none t.open_call) [
  | inl (e, at) ↦ absurd (cc (at, is_call-eq _ a x))
  | inr at ↦ (
    λ same. cc (
      is_call-eq _ a x,
      at_key_self j none t.open_call,
      ap (λ n. at_key {A = Option ℕ} j none t.open_call n.0) same,
    ),
    ap (λ c. is_call c a) (sym at) ∙ x,
  )
]

finish-open :
    (m n : Bytes × ℕ) (r : Option Bytes) (t : Calls)
    → is_open n t ≡ true
    → is_open m t ≡ true
    → (m ≡ n) ⊎ (is_open m (finish n r t) ≡ true)
finish-open (k, a) (j, b) r t x y = elim (at_key-cases j k none t.open_call) [
  | inl (e, at) ↦ inl (cc (e, is_call-eq (t.open_call j) b x, is_call-eq (t.open_call k) a y))
  | inr at ↦ inr (ap (λ c. is_call c a) at ∙ y)
]

result_of_join : (o : Option ℕ) (key : Bytes) (t : Calls) → (join_at o key t).1.ended ≡ t.ended
result_of_join none key t = refl
result_of_join (some c) key t = refl

at_number-cases {ℓ} :
    {A : Type ℓ} (n m : ℕ) (a : A) (f : ℕ → A)
    → ((m ≡ n) × (at_number n a f m ≡ a)) ⊎ (at_number n a f m ≡ f m)
at_number-cases n m a f = elim (ℕ_discrete m n) [
  | yes e ↦ inl (e, if_pos (ℕ_discrete m n) e a (f m))
  | no ne ↦ inr (if_neg (ℕ_discrete m n) ne a (f m))
]

result_of_finish :
    (m n : Bytes × ℕ) (r : Option Bytes) (t : Calls)
    → ((m ≡ n) × ((finish n r t).ended m.0 m.1 ≡ some r))
      ⊎ ((finish n r t).ended m.0 m.1 ≡ t.ended m.0 m.1)
result_of_finish (k, a) (j, b) r t =
    elim (at_key-cases j k (at_number b (some r) (t.ended j)) t.ended) [
      | inr at ↦ inr (ap (λ f. f a) at)
      | inl (e, at) ↦ elim (at_number-cases b a (some r) (t.ended j)) [
        | inl (e', at') ↦ inl (cc (e, e'), ap (λ f. f a) at ∙ at')
        | inr at' ↦ inr (ap (λ f. f a) at ∙ at' ∙ ap (λ k. t.ended k a) (sym e))
      ]
    ]

pub group_laws : GroupLaws group
group_laws = record {
  one_open = λ m n t x y same.
      cc (same, is_call-eq (t.open_call m.0) m.1 x, is_call-eq (t.open_call n.0) n.1 y);
  leads_new = λ key n t. leads_new (t.open_call key) key n t refl;
  waits_open = λ key n t. waits_open (t.open_call key) key n t refl;
  open_of_join = λ key m t. open_of_join (t.open_call key) key m t;
  join-open = λ key m t. join-open (t.open_call key) key m t refl;
  finish-result = λ n r t x.
      ap (λ f. f n.1) (at_key_self n.0 (at_number n.1 (some r) (t.ended n.0)) t.ended)
      ∙ if_pos (ℕ_discrete n.1 n.1) refl _ _;
  open_of_finish = λ m n r t x. open_of_finish m n r t;
  finish-open = finish-open;
  result_of_join = λ key m t. ap (λ f. f m.0 m.1) (result_of_join (t.open_call key) key t);
  result_of_finish = result_of_finish;
}
