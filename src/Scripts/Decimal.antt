-- ===== src/Scripts/Decimal.antt =====
-- Decimal numerals as the generator prints them, and that they can be read back.
use cache_server_go.Base.{
  ℕ, zero, suc, ◌+◌, ◌-◌, ◌*◌, ◌/◌, ◌%◌, ◌≤◌, ◌<◌, ◌≡◌, refl, ap, ◌∙◌, sym, [], ◌∷◌, ◌++◌, Bytes,
  arith, ltb, if◌then◌else◌, All, Bool-cases, inl, inr,
}

-- The digits of `n` as ASCII codes, on fuel.
unfoldable pub digits_from : ℕ → ℕ → Bytes
digits_from zero n = []
digits_from (suc f) n =
    let high = digits_from f (n / 10) in
    if ltb n 10 then (n + b'0') ∷ [] else high ++ ((n % 10 + b'0') ∷ [])

-- `str(n)`
unfoldable pub digits : ℕ → Bytes
unfolding digits_from
digits n = digits_from (suc n) n

abbrev pub IsDigit : ℕ → Type 0
IsDigit c = (b'0' ≤ c) × (c ≤ b'9')

-- The number that a numeral stands for.
value_from : ℕ → Bytes → ℕ
value_from acc [] = acc
value_from acc (c ∷ cs) = value_from (acc * 10 + (c - b'0')) cs

value_from-append :
    (acc c : ℕ) (xs : Bytes) → value_from acc (xs ++ (c ∷ [])) ≡ value_from acc xs * 10 + (c - b'0')
unfolding value_from
value_from-append acc c [] = refl
value_from-append acc c (x ∷ xs) = value_from-append (acc * 10 + (x - b'0')) c xs

value_from-digits_from : (f n : ℕ) → n < f → value_from 0 (digits_from f n) ≡ n
unfolding digits_from
value_from-digits_from zero n h = elim h [ ]
value_from-digits_from (suc f) n h = elim (Bool-cases (ltb n 10)) [
  | inl small ↦ rw small (unfold value_from in omega arith)
  | inr big ↦ rw big (
      value_from-append 0 (n % 10 + b'0') (digits_from f (n / 10))
      ∙ ground (arith, value_from-digits_from f (n / 10)))
]

-- Two numbers with the same numeral are equal.
pub digits-injective : (m n : ℕ) → digits m ≡ digits n → m ≡ n
unfolding digits
digits-injective m n h =
    sym (value_from-digits_from (suc m) m (omega arith))
    ∙ ap (value_from 0) h
    ∙ value_from-digits_from (suc n) n (omega arith)

All-last : (xs : Bytes) (c : ℕ) → All IsDigit xs → IsDigit c → All IsDigit (xs ++ (c ∷ []))
All-last [] c h d = (d, tt)
All-last (x ∷ xs) c h d = (h.0, All-last xs c h.1 d)

digits_from-IsDigit : (f n : ℕ) → All IsDigit (digits_from f n)
unfolding digits_from
digits_from-IsDigit zero n = tt
digits_from-IsDigit (suc f) n = elim (Bool-cases (ltb n 10)) [
  | inl small ↦ rw small ((ground arith), tt)
  | inr big ↦ rw big (
      All-last (digits_from f (n / 10)) (n % 10 + b'0') (digits_from-IsDigit f (n / 10))
        (omega arith))
]

pub digits-IsDigit : (n : ℕ) → All IsDigit (digits n)
unfolding digits
digits-IsDigit n = digits_from-IsDigit (suc n) n

-- A text is cut at its first underscore in one way.
pub cut_at_underscore :
    (xs ys us vs : Bytes)
    → All IsDigit xs
    → All IsDigit us
    → xs ++ (b'_' ∷ ys) ≡ us ++ (b'_' ∷ vs)
    → (xs ≡ us) × (ys ≡ vs)
cut_at_underscore [] ys [] vs h k e = (refl, cc)
cut_at_underscore [] ys (u ∷ us) vs h k e = absurd (ground (arith, k.0))
cut_at_underscore (x ∷ xs) ys [] vs h k e = absurd (ground (arith, h.0))
cut_at_underscore (x ∷ xs) ys (u ∷ us) vs h k e =
    let (same, rest) = cut_at_underscore xs ys us vs h.1 k.1 (cc) in (ground arith, rest)
