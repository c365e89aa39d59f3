-- ===== src/Scripts/Fn.antt =====
-- A function of a sample script, `function fn_S_I(x) { return x * 0.D + B; }`: its multiplier `D` in
-- millionths and its offset `B`. JavaScript's numbers are a parameter.
use cache_server_go.Base.{ℕ, List, ℤ, pos, neg}

pub record Fn : Type 0 where
  pub scale : ℕ
  pub offset : ℤ

infix 68 ◌x+◌ ◌x-◌
-- `x * 0.D + B` and `x * 0.D + -B`, with `D` as six digits.
abbrev pub ◌x+◌ : ℕ → ℕ → Fn
a x+ b = record { scale = a; offset = pos b }

abbrev pub ◌x-◌ : ℕ → ℕ → Fn
a x- b = record { scale = a; offset = neg b }

-- A script: the number in its first line, which is in its functions' names too, and its functions.
pub record Script : Type 0 where
  pub seed : ℕ
  pub fns : List Fn

-- What a script does with numbers: the literals `0.D` and `B`, a product and a sum, and the order
-- that the theorems speak of.
pub record Numbers : Type 1 where
  pub Number : Type 0
  pub millionths : ℕ → Number
  pub of_int : ℤ → Number
  pub mul : Number → Number → Number
  pub add : Number → Number → Number
  pub le : Number → Number → Type 0

module _ (n : Numbers) where
  open n use {Number, millionths, of_int, mul, add}

  -- A call of the function.
  unfoldable pub call : Fn → Number → Number
  call f x = add (mul x (millionths f.scale)) (of_int f.offset)
