-- ===== src/Config/Utf8.antt =====
-- What Go does with the UTF-8 of a text in `for _, c := range v { ... string(c) ... }`, as in `envSlice`
-- of internal/config/config.go. The language's specification: `range` yields the code point of each
-- valid encoding, and U+FFFD for a byte that begins none, after which it goes on one byte further;
-- `string(c)` encodes the code point.
use mathlib.Core.Option.{some-injective}
use cache_server_go.Base.{
  ℕ, zero, suc, ◌≡◌, ◌≢◌, refl, ap, ◌⊎◌, inl, inr, Bool, true, false, ◌&&◌, Option, none, some,
  List, [], ◌∷◌, ◌++◌, Bytes, ◌≤◌, leb→le, ℕ_discrete, arith, ltb, leb, ◌==◌, if◌then◌else◌, length,
  All, Bool-cases,
}

abbrev pub between : ℕ → ℕ → ℕ → Bool
between low high b = leb low b && leb b high

-- The bytes that follow the first byte of an encoding of more than one; 0 if it begins none.
abbrev pub following : ℕ → ℕ
following a =
    if between 0xC2 0xDF a
    then 1
    else if between 0xE0 0xEF a
    then 2
    else if between 0xF0 0xF4 a
    then 3
    else 0

-- The second byte excludes overlong encodings, surrogates, and what is past U+10FFFF.
abbrev pub accepts : ℕ → ℕ → Bool
accepts a b =
    between (if a == 0xE0 then 0xA0 else if a == 0xF0 then 0x90 else 0x80)
      (if a == 0xED then 0x9F else if a == 0xF4 then 0x8F else 0xBF) b

-- A byte before the bytes that are there, if it is accepted.
abbrev pub before : Bool → ℕ → Option Bytes → Option Bytes
before false b t = none
before true b none = none
before true b (some t) = some (b ∷ t)

-- The next `n` bytes, if each continues an encoding.
unfoldable pub continued : ℕ → Bytes → Option Bytes
continued zero bs = some []
continued (suc n) [] = none
continued (suc n) (b ∷ bs) = before (between 0x80 0xBF b) b (continued n bs)

-- The rest of an encoding that `a` begins.
unfoldable pub rest_of : ℕ → ℕ → Bytes → Option Bytes
unfolding continued
rest_of a zero bs = none
rest_of a (suc n) [] = none
rest_of a (suc n) (b ∷ bs) = before (accepts a b) b (continued n bs)

abbrev pub replacement : Bytes
replacement = 0xEF ∷ 0xBF ∷ 0xBD ∷ []

-- The `string(c)` of a code point of more than one byte, by the rest of its encoding, and the bytes
-- that it takes after its first.
abbrev pub multi : ℕ → Option Bytes → Bytes × ℕ
multi a none = (replacement, 0)
multi a (some t) = (a ∷ t, length t)

-- The same of the first code point of a text.
unfoldable pub decode : ℕ → Bytes → Bytes × ℕ
unfolding rest_of
decode a bs = if ltb a 0x80 then (a ∷ [], 0) else multi a (rest_of a (following a) bs)

-- The `string(c)` of each code point, after `n` bytes that the one before has taken.
unfoldable pub runes_from : ℕ → Bytes → List Bytes
unfolding decode
runes_from n [] = []
runes_from zero (b ∷ bs) = let (r, n) = decode b bs in r ∷ runes_from n bs
runes_from (suc n) (b ∷ bs) = runes_from n bs

abbrev pub runes : Bytes → List Bytes
runes v = runes_from 0 v

-- The texts put together.
abbrev pub concat : List Bytes → Bytes
concat [] = []
concat (r ∷ rs) = r ++ concat rs

-- The text with each byte that is not part of a valid encoding replaced by U+FFFD.
abbrev pub to_valid : Bytes → Bytes
to_valid v = concat (runes v)

abbrev pub NoComma : Bytes → Type 0
NoComma = All (λ c. c ≢ b',')

-- A byte from 0x80 on is no comma.
high : (low up b : ℕ) → 0x80 ≤ low → between low up b ≡ true → b ≢ b','
high low up b h e = λ same. absurd (omega (arith, leb→le low b (first (leb low b) (leb b up) e)))
  where
    first : (x y : Bool) → x && y ≡ true → x ≡ true
    first x y e = ground arith

pub accepts-high : (a b : ℕ) → accepts a b ≡ true → b ≢ b','
accepts-high a b e = high _ _ b (low_bound (a == 0xE0) (a == 0xF0)) e
  where
    low_bound : (x y : Bool) → 0x80 ≤ (if x then 0xA0 else if y then 0x90 else 0x80)
    low_bound x y = ground arith

before-NoComma :
    (test : Bool) (b : ℕ) (o : Option Bytes) (t : Bytes)
    → (test ≡ true → b ≢ b',')
    → ((u : Bytes) → o ≡ some u → NoComma u)
    → before test b o ≡ some t
    → NoComma t
before-NoComma false b o t h k e = absurd (cc)
before-NoComma true b none t h k e = absurd (cc)
before-NoComma true b (some u) t h k e = rw (← some-injective _ _ e) (h refl, k u refl)

continued-NoComma : (n : ℕ) (bs t : Bytes) → continued n bs ≡ some t → NoComma t
unfolding continued
continued-NoComma zero bs t e = rw (← some-injective _ _ e) tt
continued-NoComma (suc n) [] t e = absurd (cc)
continued-NoComma (suc n) (b ∷ bs) t e =
    before-NoComma (between 0x80 0xBF b) b (continued n bs) t (high 0x80 0xBF b (omega arith))
      (continued-NoComma n bs) e

rest_of-NoComma : (a n : ℕ) (bs t : Bytes) → rest_of a n bs ≡ some t → NoComma t
unfolding rest_of
rest_of-NoComma a zero bs t e = absurd (cc)
rest_of-NoComma a (suc n) [] t e = absurd (cc)
rest_of-NoComma a (suc n) (b ∷ bs) t e =
    before-NoComma (accepts a b) b (continued n bs) t (accepts-high a b) (continued-NoComma n bs) e

-- The text of one code point: a comma, or without one.
abbrev pub IsRune : Bytes → Type 0
IsRune r = (r ≡ b',' ∷ []) ⊎ NoComma r

multi-IsRune :
    (a : ℕ) (o : Option Bytes)
    → 0x80 ≤ a
    → ((t : Bytes) → o ≡ some t → NoComma t)
    → IsRune (multi a o).0
multi-IsRune a none h k = inr (
  (λ e. absurd (omega (arith, e))),
  ((λ e. absurd (omega (arith, e))), ((λ e. absurd (omega (arith, e))), tt)),
)
multi-IsRune a (some t) h k = inr ((λ e. absurd (omega (arith, e))), k t refl)

decode-IsRune : (a : ℕ) (bs : Bytes) → IsRune (decode a bs).0
unfolding decode
decode-IsRune a bs = elim (Bool-cases (ltb a 0x80)) [
  | inl small ↦
      rw small (elim (ℕ_discrete a b',') [ yes e ↦ inl (ap (λ c. c ∷ []) e) | no n ↦ inr (n, tt) ])
  | inr big ↦ rw big (
      multi-IsRune a (rest_of a (following a) bs) (not_below a big)
        (rest_of-NoComma a (following a) bs))
]
  where
    not_below : (a : ℕ) → ltb a 0x80 ≡ false → 0x80 ≤ a
    not_below a h = ground arith

pub runes_from-IsRune : (n : ℕ) (v : Bytes) → All IsRune (runes_from n v)
unfolding runes_from
runes_from-IsRune n [] = tt
runes_from-IsRune zero (b ∷ bs) = (decode-IsRune b bs, runes_from-IsRune (decode b bs).1 bs)
runes_from-IsRune (suc n) (b ∷ bs) = runes_from-IsRune n bs
