-- ===== src/Base/Keys.antt =====
-- Go's `string` and `[]byte` as lists of bytes, with their decidable equality.
use Prim.Native.Nat.{ℕ}
use mathlib.Core.Path.{◌≡◌, refl, ap₂}
use mathlib.Core.List.{List, [], ◌∷◌}
use native.Mathlib.Decide.{ℕ_discrete}

abbrev pub Bytes : Type 0
Bytes = List ℕ

pub head_eq : (x y : ℕ) (xs ys : Bytes) → x ∷ xs ≡ y ∷ ys → x ≡ y
head_eq x y xs ys e = cc

pub tail_eq : (x y : ℕ) (xs ys : Bytes) → x ∷ xs ≡ y ∷ ys → xs ≡ ys
tail_eq x y xs ys e = cc

pub nil_ne_cons : (x : ℕ) (xs : Bytes) → ◌≡◌ {A = Bytes} [] (x ∷ xs) → ⊥
nil_ne_cons x xs e = cc

pub cons_ne_nil : (x : ℕ) (xs : Bytes) → ◌≡◌ {A = Bytes} (x ∷ xs) [] → ⊥
cons_ne_nil x xs e = cc

abbrev dec_cons : (x y : ℕ) (xs ys : Bytes) → Dec (x ≡ y) → Dec (xs ≡ ys) → Dec (x ∷ xs ≡ y ∷ ys)
dec_cons x y xs ys (yes p) (yes q) = yes (ap₂ ◌∷◌ p q)
dec_cons x y xs ys (yes p) (no q) = no (λ e. q (tail_eq x y xs ys e))
dec_cons x y xs ys (no p) d = no (λ e. p (head_eq x y xs ys e))

unfoldable pub dec_bytes : Discrete Bytes
unfolding ℕ_discrete
dec_bytes [] [] = yes refl
dec_bytes [] (y ∷ ys) = no (nil_ne_cons y ys)
dec_bytes (x ∷ xs) [] = no (cons_ne_nil x xs)
dec_bytes (x ∷ xs) (y ∷ ys) = dec_cons x y xs ys (ℕ_discrete x y) (dec_bytes xs ys)
