-- ===== src/Config/Joined.antt =====
-- A comma between two texts of `envSlice` ends whatever encoding stands before it.
use mathlib.Core.Option.{some-injective}
use mathlib.Core.List.{append_assoc}
use cache_server_go.Base.{
  ℕ, zero, suc, ◌≤◌, ◌≡◌, refl, ap, sym, ◌∙◌, Bool, true, false, Option, none, some, List, [], ◌∷◌,
  ◌++◌, Bytes, arith, ltb, if◌then◌else◌, length, Bool-cases, inl, inr,
}
use cache_server_go.Config.Utf8.{
  before, accepts, between, continued, rest_of, following, multi, decode, runes_from, runes, concat,
  to_valid, accepts-high,
}

-- A text before a comma and another text.
abbrev then_comma : Bytes → Bytes → Bytes
then_comma x rest = x ++ (b',' ∷ rest)

continued-comma : (n : ℕ) (x rest : Bytes) → continued n (then_comma x rest) ≡ continued n x
unfolding continued
continued-comma zero x rest = refl
continued-comma (suc n) [] rest = refl
continued-comma (suc n) (b ∷ x) rest =
    ap (before (between 0x80 0xBF b) b) (continued-comma n x rest)

accepts_comma : (a : ℕ) → accepts a b',' ≡ false
accepts_comma a = elim (Bool-cases (accepts a b',')) [
  | inl on ↦ absurd (accepts-high a b',' on refl)
  | inr off ↦ off
]

rest_of-comma : (a n : ℕ) (x rest : Bytes) → rest_of a n (then_comma x rest) ≡ rest_of a n x
unfolding rest_of
rest_of-comma a zero x rest = refl
rest_of-comma a (suc n) [] rest = rw (accepts_comma a) refl
rest_of-comma a (suc n) (b ∷ x) rest = ap (before (accepts a b) b) (continued-comma n x rest)

decode-comma : (a : ℕ) (x rest : Bytes) → decode a (then_comma x rest) ≡ decode a x
unfolding decode
decode-comma a x rest =
    ap (λ o. if ltb a 0x80 then (a ∷ [], 0) else multi a o) (rest_of-comma a (following a) x rest)

before-length :
    (test : Bool) (b n : ℕ) (o : Option Bytes) (t : Bytes)
    → ((u : Bytes) → o ≡ some u → length u ≤ n)
    → before test b o ≡ some t
    → length t ≤ suc n
before-length false b n o t h e = absurd (cc)
before-length true b n none t h e = absurd (cc)
before-length true b n (some u) t h e = rw (← some-injective _ _ e) (omega (arith, h u refl))

continued-length : (n : ℕ) (x t : Bytes) → continued n x ≡ some t → length t ≤ length x
unfolding continued
continued-length zero x t e = rw (← some-injective _ _ e) (omega arith)
continued-length (suc n) [] t e = absurd (cc)
continued-length (suc n) (b ∷ x) t e =
    before-length (between 0x80 0xBF b) b (length x) (continued n x) t (continued-length n x) e

rest_of-length : (a n : ℕ) (x t : Bytes) → rest_of a n x ≡ some t → length t ≤ length x
unfolding rest_of
rest_of-length a zero x t e = absurd (cc)
rest_of-length a (suc n) [] t e = absurd (cc)
rest_of-length a (suc n) (b ∷ x) t e =
    before-length (accepts a b) b (length x) (continued n x) t (continued-length n x) e

multi-le :
    (a n : ℕ) (o : Option Bytes) → ((t : Bytes) → o ≡ some t → length t ≤ n) → (multi a o).1 ≤ n
multi-le a n none h = omega arith
multi-le a n (some t) h = h t refl

-- A code point takes bytes of the text only.
decode-le : (a : ℕ) (x : Bytes) → (decode a x).1 ≤ length x
unfolding decode
decode-le a x = elim (Bool-cases (ltb a 0x80)) [
  | inl small ↦ rw small (omega arith)
  | inr big ↦
      rw big (multi-le a (length x) (rest_of a (following a) x) (rest_of-length a (following a) x))
]

runes_from-comma :
    (n : ℕ) (x rest : Bytes)
    → n ≤ length x
    → runes_from n (then_comma x rest) ≡ runes_from n x ++ ((b',' ∷ []) ∷ runes rest)
unfolding runes_from
runes_from-comma zero [] rest h = refl
runes_from-comma (suc n) [] rest h = absurd (omega (arith, h))
runes_from-comma (suc n) (b ∷ x) rest h = runes_from-comma n x rest (omega (arith, h))
runes_from-comma zero (b ∷ x) rest h =
    ap (λ d. d.0 ∷ runes_from d.1 (then_comma x rest)) (decode-comma b x rest)
    ∙ ap (λ rs. (decode b x).0 ∷ rs) (runes_from-comma (decode b x).1 x rest (decode-le b x))

concat-append : (rs ss : List Bytes) → concat (rs ++ ss) ≡ concat rs ++ concat ss
concat-append [] ss = refl
concat-append (r ∷ rs) ss =
    ap (λ x. r ++ x) (concat-append rs ss) ∙ sym (append_assoc r (concat rs) (concat ss))

pub to_valid-comma :
    (x rest : Bytes) → to_valid (x ++ (b',' ∷ rest)) ≡ to_valid x ++ (b',' ∷ to_valid rest)
to_valid-comma x rest =
    ap concat (runes_from-comma 0 x rest (omega arith))
    ∙ concat-append (runes x) ((b',' ∷ []) ∷ runes rest)
