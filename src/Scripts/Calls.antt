-- ===== src/Scripts/Calls.antt =====
-- Sequences of calls, by name, of the functions that a page has bound.
use native.Mathlib.Nat.{le_refl}
use cache_server_go.Base.{
  ℕ, zero, suc, ◌+◌, ◌≤◌, ◌<◌, ◌≡◌, Option, none, some, List, [], ◌∷◌, Bytes, arith, pos_part,
  neg_part, All, length, Option-cases, inl, inr, dec_bytes, ℤ, pos, ◌≤ℤ◌,
}
use cache_server_go.Base.Maps.{Map, lookup, insert, lookup-insert}
use cache_server_go.Scripts.Fn.{Fn, Script, Numbers, call}
use cache_server_go.Scripts.Page.{fn_name, declare_from, load}

-- A multiplier above 0 and below 1, and an offset from -100 to 100.
pub record IsGenerated (f : Fn) : Type 0 where
  pub scale_pos : 0 < f.scale
  pub scale_lt : f.scale < 1_000_000
  pub pos_le : pos_part f.offset ≤ 100
  pub neg_le : neg_part f.offset ≤ 100

abbrev pub AllGenerated : Map Fn → Type 0
AllGenerated env = (q : Bytes) (f : Fn) → lookup q env ≡ some f → IsGenerated f

declare_from-AllGenerated :
    (s i : ℕ) (fs : List Fn) (env : Map Fn)
    → All IsGenerated fs
    → AllGenerated env
    → AllGenerated (declare_from s i fs env)
unfolding declare_from
declare_from-AllGenerated s i [] env g h = h
declare_from-AllGenerated s i (f ∷ fs) env g h =
    declare_from-AllGenerated s (i + 1) fs (insert (fn_name s i) f env) g.1 bound
  where
    bound : AllGenerated (insert (fn_name s i) f env)
    bound q x e = elim (dec_bytes (fn_name s i) q) [
      | yes p ↦
          let same : f ≡ x = ground (arith, lookup-insert (fn_name s i) q f env) in rw (← same) g.0
      | no p ↦ h q x (ground (arith, lookup-insert (fn_name s i) q f env))
    ]

pub load-AllGenerated :
    (ss : List Script) (env : Map Fn)
    → All (λ s. All IsGenerated s.fns) ss
    → AllGenerated env
    → AllGenerated (load ss env)
unfolding load
load-AllGenerated [] env g h = h
load-AllGenerated (s ∷ ss) env g h =
    load-AllGenerated ss (declare_from s.seed 0 s.fns env) g.1
      (declare_from-AllGenerated s.seed 0 s.fns env g.0 h)

-- What is relied on of JavaScript's numbers, for the order of IEEE 754 away from NaN: products and
-- sums are correctly rounded, so a product by a positive literal and a sum with an integer are
-- monotone, and a product by a literal below 1 does not exceed a factor that is not negative.
pub record IsRounded (n : Numbers) : Type 0 where
  pub le_trans : (x y z : n.Number) → n.le x y → n.le y z → n.le x z
  pub mul_mono :
      (a : ℕ) (x y : n.Number)
      → 0 < a
      → n.le x y
      → n.le (n.mul x (n.millionths a)) (n.mul y (n.millionths a))
  pub mul_shrinks :
      (a : ℕ) (x : n.Number)
      → a < 1_000_000
      → n.le (n.of_int (pos 0)) x
      → n.le (n.mul x (n.millionths a)) x
  pub add_mono :
      (x y : n.Number) (b c : ℤ)
      → n.le x y
      → b ≤ℤ c
      → n.le (n.add x (n.of_int b)) (n.add y (n.of_int c))
  pub add_grows :
      (x : n.Number)
      → n.le (n.of_int (pos 0)) x
      → n.le (n.of_int (pos 0)) (n.add x (n.of_int (pos 100)))

module _ (n : Numbers) where
  open n use {Number, of_int, add, le}

  -- `fn_S_I(...)` for each name in turn, each given the result before it; `none` is the
  -- ReferenceError of a name that is not bound.
  unfoldable pub run_calls : Map Fn → List Bytes → Number → Option Number
  run_calls env [] x = some x
  run_calls env (q ∷ qs) x = elim (lookup q env) [
    | none ↦ none
    | some f ↦ run_calls env qs (call n f x)
  ]

  -- The bound after `k` calls.
  unfoldable pub raised : ℕ → Number → Number
  raised zero x = x
  raised (suc k) x = raised k (add x (of_int (pos 100)))

  -- Two outcomes in order: both calls failed, or both returned and the results are in order.
  abbrev pub InOrder : Option Number → Option Number → Type 0
  InOrder none none = Unit
  InOrder (some u) (some v) = le u v
  InOrder _ _ = ⊥

  -- The outcome does not exceed a bound, if there is one.
  abbrev pub AtMost : Number → Option Number → Type 0
  AtMost top none = Unit
  AtMost top (some u) = le u top

  module _ (laws : IsRounded n) where
    open laws use {le_trans, mul_mono, mul_shrinks, add_mono, add_grows}

    -- A call of a generated function adds at most 100 to any bound that is not negative.
    call-le :
        (f : Fn) (x top : Number)
        → IsGenerated f
        → le x top
        → le (of_int (pos 0)) top
        → le (call n f x) (add top (of_int (pos 100)))
    unfolding call
    call-le f x top g h p =
        add_mono _ _ f.offset (pos 100)
          (le_trans _ _ _ (mul_mono f.scale x top g.scale_pos h)
            (mul_shrinks f.scale top g.scale_lt p))
          (omega (arith, g.pos_le))

    -- Where every bound function has a multiplier between 0 and 1, any sequence of calls is
    -- monotone: from arguments in order come results in order, or both sequences fail on a name
    -- that is not bound.
    pub run_calls-InOrder :
        (env : Map Fn) (qs : List Bytes) (x y : Number)
        → AllGenerated env
        → le x y
        → InOrder (run_calls env qs x) (run_calls env qs y)
    unfolding run_calls call
    run_calls-InOrder env [] x y g h = h
    run_calls-InOrder env (c ∷ qs) x y g h = elim (Option-cases (lookup c env)) [
      | inl missing ↦ rw (missing, run_calls) tt
      | inr (f, found) ↦
          let gen = g c f found in
          rw (found, run_calls)
            (run_calls-InOrder env qs (call n f x) (call n f y) g
              (add_mono _ _ f.offset f.offset (mul_mono f.scale x y gen.scale_pos h) (le_refl _)))
    ]

    -- Where every bound function also has an offset of at most 100, `k` calls raise a bound that is
    -- not negative by at most `k` additions of 100.
    pub run_calls-AtMost :
        (env : Map Fn) (qs : List Bytes) (x top : Number)
        → AllGenerated env
        → le x top
        → le (of_int (pos 0)) top
        → AtMost (raised (length qs) top) (run_calls env qs x)
    unfolding run_calls raised
    run_calls-AtMost env [] x top g h p = h
    run_calls-AtMost env (c ∷ qs) x top g h p = elim (Option-cases (lookup c env)) [
      | inl missing ↦ rw (missing, run_calls) tt
      | inr (f, found) ↦
          rw (found, run_calls)
            (run_calls-AtMost env qs (call n f x) (add top (of_int (pos 100))) g
              (call-le f x top (g c f found) h p) (add_grows top p))
    ]
