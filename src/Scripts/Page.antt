-- ===== src/Scripts/Page.antt =====
-- Scripts loaded into one page: each function declaration binds its name in the global environment,
-- a later one of the same name replacing the binding.
use cache_server_go.Base.{
  ℕ, zero, suc, ◌+◌, ◌<◌, ◌≡◌, refl, ◌≢◌, ◌∙◌, if_pos, if_neg, some, List, [], ◌∷◌, ◌++◌, Bytes,
  arith, codes, get_elem?, All, dec_bytes,
}
use cache_server_go.Base.Maps.{Map, lookup, insert, lookup-insert}
use cache_server_go.Scripts.Fn.{Fn, Script}
use cache_server_go.Scripts.Decimal.{digits, digits-injective, digits-IsDigit, cut_at_underscore}

-- `fn_{seed}_{i}`
unfoldable pub fn_name : ℕ → ℕ → Bytes
fn_name seed i = codes "fn_" ++ (digits seed ++ (b'_' ∷ digits i))

fn_name-tail :
    (s i t j : ℕ)
    → fn_name s i ≡ fn_name t j
    → digits s ++ (b'_' ∷ digits i) ≡ digits t ++ (b'_' ∷ digits j)
unfolding fn_name
fn_name-tail s i t j e = cc

-- The names of two functions differ unless both numbers agree.
pub fn_name-injective : (s i t j : ℕ) → fn_name s i ≡ fn_name t j → (s ≡ t) × (i ≡ j)
fn_name-injective s i t j e =
    let (seeds, rest) =
      cut_at_underscore (digits s) (digits i) (digits t) (digits j) (digits-IsDigit s)
        (digits-IsDigit t) (fn_name-tail s i t j e) in
    (digits-injective s t seeds, digits-injective i j rest)

-- The declarations of a script from its function `i` on.
unfoldable pub declare_from : ℕ → ℕ → List Fn → Map Fn → Map Fn
declare_from seed i [] env = env
declare_from seed i (f ∷ fs) env = declare_from seed (i + 1) fs (insert (fn_name seed i) f env)

unfoldable pub load : List Script → Map Fn → Map Fn
load [] env = env
load (s ∷ ss) env = load ss (declare_from s.seed 0 s.fns env)

-- A declaration leaves every other name alone.
declare_other :
    (s i t j : ℕ) (f : Fn) (env : Map Fn)
    → ¬ ((s ≡ t) × (i ≡ j))
    → lookup (fn_name t j) (insert (fn_name s i) f env) ≡ lookup (fn_name t j) env
declare_other s i t j f env h =
    lookup-insert (fn_name s i) (fn_name t j) f env
    ∙ if_neg (dec_bytes (fn_name s i) (fn_name t j)) (λ e. h (fn_name-injective s i t j e)) _ _

declare_from_other :
    (s i t j : ℕ) (fs : List Fn) (env : Map Fn)
    → s ≢ t
    → lookup (fn_name t j) (declare_from s i fs env) ≡ lookup (fn_name t j) env
unfolding declare_from
declare_from_other s i t j [] env h = refl
declare_from_other s i t j (f ∷ fs) env h =
    declare_from_other s (i + 1) t j fs (insert (fn_name s i) f env) h
    ∙ declare_other s i t j f env (λ e. h e.0)

declare_from_below :
    (s i j : ℕ) (fs : List Fn) (env : Map Fn)
    → j < i
    → lookup (fn_name s j) (declare_from s i fs env) ≡ lookup (fn_name s j) env
unfolding declare_from
declare_from_below s i j [] env h = refl
declare_from_below s i j (f ∷ fs) env h =
    declare_from_below s (i + 1) j fs (insert (fn_name s i) f env) (omega arith)
    ∙ declare_other s i s j f env (λ e. absurd (below e.1))
  where
    below : i ≡ j → ⊥
    below e = omega arith

declare_from_own :
    (s i k : ℕ) (fs : List Fn) (env : Map Fn) (f : Fn)
    → get_elem? fs k ≡ some f
    → lookup (fn_name s (i + k)) (declare_from s i fs env) ≡ some f
unfolding declare_from
declare_from_own s i k [] env f h = cc
declare_from_own s i zero (g ∷ fs) env f h =
    let at_i : i + 0 ≡ i = omega arith in
    rw at_i (
      declare_from_below s (i + 1) i fs (insert (fn_name s i) g env) (omega arith)
      ∙ lookup-insert (fn_name s i) (fn_name s i) g env
      ∙ if_pos (dec_bytes (fn_name s i) (fn_name s i)) refl _ _
      ∙ h)
declare_from_own s i (suc k) (g ∷ fs) env f h =
    let at_k : i + suc k ≡ i + 1 + k = omega arith in
    rw at_k (declare_from_own s (i + 1) k fs (insert (fn_name s i) g env) f h)

declare_own :
    (s i : ℕ) (fs : List Fn) (env : Map Fn) (f : Fn)
    → get_elem? fs i ≡ some f
    → lookup (fn_name s i) (declare_from s 0 fs env) ≡ some f
declare_own s i fs env f h =
    let e : 0 + i ≡ i = omega arith in rw e at (declare_from_own s 0 i fs env f h)

-- No two scripts have the same number.
abbrev pub Distinct : List Script → Type 0
Distinct [] = Unit
Distinct (s ∷ ss) = All (λ t. t.seed ≢ s.seed) ss × Distinct ss

load_other :
    (ss : List Script) (env : Map Fn) (t j : ℕ)
    → All (λ s. s.seed ≢ t) ss
    → lookup (fn_name t j) (load ss env) ≡ lookup (fn_name t j) env
unfolding load
load_other [] env t j h = refl
load_other (s ∷ ss) env t j h =
    load_other ss (declare_from s.seed 0 s.fns env) t j h.1
    ∙ declare_from_other s.seed 0 t j s.fns env h.0

-- In whatever order scripts with different numbers are loaded, and whatever was bound before, each
-- name `fn_{seed}_{i}` stands for function `i` of the script with that number.
pub load-resolves :
    (ss : List Script) (env : Map Fn) (k i : ℕ) (s : Script) (f : Fn)
    → Distinct ss
    → get_elem? ss k ≡ some s
    → get_elem? s.fns i ≡ some f
    → lookup (fn_name s.seed i) (load ss env) ≡ some f
unfolding load
load-resolves [] env k i s f d hs hf = cc
load-resolves (t ∷ ss) env zero i s f d hs hf =
    rw (← same) (load_other ss (declare_from t.seed 0 t.fns env) t.seed i d.0 ∙ first)
  where
    same : t ≡ s
    same = cc

    first : lookup (fn_name t.seed i) (declare_from t.seed 0 t.fns env) ≡ some f
    first = declare_own t.seed i t.fns env f (rw same hf)
load-resolves (t ∷ ss) env (suc k) i s f d hs hf =
    load-resolves ss (declare_from t.seed 0 t.fns env) k i s f d.1 hs hf
