-- ===== src/Tests/Scripts.antt =====
-- The sample scripts: runs and instances. The numbers are integers here, with products truncated
-- towards zero.
use native.Mathlib.Nat.{le_refl, mul-le-mul}
use cache_server_go.Base.{
  ℕ, zero, suc, ◌+◌, ◌*◌, ◌/◌, ◌-◌, ◌≤◌, ◌<◌, ◌≡◌, refl, some, List, [], ◌∷◌, arith, ℤ, pos, negsuc,
  neg, pos_part, neg_part, ◌≤ℤ◌, leb, if◌then◌else◌, codes, Bytes,
}
use cache_server_go.Base.Maps.{lookup}
use cache_server_go.Scripts.Fn.{Numbers, ◌x+◌, ◌x-◌}
use cache_server_go.Scripts.Decimal.{digits}
use cache_server_go.Scripts.Page.{fn_name, load, load-resolves}
use cache_server_go.Scripts.Calls.{IsRounded, run_calls, raised, InOrder, AtMost}
use cache_server_go.Scripts.Tables.{all_scripts}
use cache_server_go.Scripts.Loaded.{all_scripts-Distinct, page_calls-InOrder, page_calls-AtMost}

abbrev scaled : ℤ → ℕ → ℤ
scaled (pos m) a = pos (m * a / 1_000_000)
scaled (negsuc m) a = neg (suc m * a / 1_000_000)

abbrev plus : ℤ → ℤ → ℤ
plus a b =
    let up = pos_part a + pos_part b in
    let down = neg_part a + neg_part b in
    if leb down up then pos (up - down) else negsuc (down - up - 1)

-- A literal stands for itself as a product's second factor, which is all that the scripts use it for.
abbrev integers : Numbers
integers = record {
  Number = ℤ;
  millionths = pos;
  of_int = λ b. b;
  mul = λ x a. scaled x (pos_part a);
  add = plus;
  le = ◌≤ℤ◌;
}

neg_parts : (n : ℕ) → (pos_part (neg n) ≡ 0) × (neg_part (neg n) ≡ n)
neg_parts zero = (refl, refl)
neg_parts (suc n) = (refl, refl)

div_mono : (a m k : ℕ) → m ≤ k → m * a / 1_000_000 ≤ k * a / 1_000_000
div_mono a m k h = omega (arith, mul-le-mul h (le_refl a))

scaled_mono : (a : ℕ) (x y : ℤ) → x ≤ℤ y → scaled x a ≤ℤ scaled y a
scaled_mono a (pos m) (pos k) h = omega (arith, div_mono a m k (omega arith))
scaled_mono a (negsuc m) (pos k) h = omega (arith, neg_parts (suc m * a / 1_000_000))
scaled_mono a (pos m) (negsuc k) h = absurd (omega arith)
scaled_mono a (negsuc m) (negsuc k) h = omega (
  arith,
  div_mono a (suc k) (suc m) (omega arith),
  neg_parts (suc m * a / 1_000_000),
  neg_parts (suc k * a / 1_000_000),
)

scaled_shrinks : (a : ℕ) (x : ℤ) → a < 1_000_000 → pos 0 ≤ℤ x → scaled x a ≤ℤ x
scaled_shrinks a (pos m) h p =
    let small : a ≤ 1_000_000 = omega arith in omega (arith, mul-le-mul (le_refl m) small)
scaled_shrinks a (negsuc m) h p = absurd (omega arith)

plus_mono : (x y b c : ℤ) → x ≤ℤ y → b ≤ℤ c → plus x b ≤ℤ plus y c
plus_mono x y b c h k = ground arith

integers-IsRounded : IsRounded integers
integers-IsRounded = record {
  le_trans = λ x y z h k. omega arith;
  mul_mono = λ a x y _ h. scaled_mono a x y h;
  mul_shrinks = scaled_shrinks;
  add_mono = plus_mono;
  add_grows = λ x h. plus_mono (pos 0) x (pos 0) (pos 100) h (omega arith);
}

name_test : fn_name 3000 12 ≡ codes "fn_3000_12"
unfolding fn_name digits
name_test = refl

-- `function fn_3000_2(x) { return x * 0.647362 + -64; }`
loaded : lookup (fn_name 3000 2) (load all_scripts []) ≡ some (647_362 x- 64)
unfolding all_scripts
loaded = load-resolves all_scripts [] 0 2 _ _ all_scripts-Distinct refl refl

abbrev first_calls : List Bytes
first_calls = codes "fn_3000_0" ∷ codes "fn_3029_76" ∷ []

page_calls-InOrder_example :
    InOrder integers
      (run_calls integers (load all_scripts []) first_calls (pos 5))
      (run_calls integers (load all_scripts []) first_calls (pos 9))
page_calls-InOrder_example =
    page_calls-InOrder integers integers-IsRounded first_calls (pos 5) (pos 9) (omega arith)

page_calls-AtMost_example :
    AtMost integers
      (raised integers 2 (pos 7))
      (run_calls integers (load all_scripts []) first_calls (pos 5))
page_calls-AtMost_example =
    page_calls-AtMost integers integers-IsRounded first_calls (pos 5) (pos 7) (omega arith)
      (omega arith)

-- `load-resolves`, where a script with the same names is bound already.
load-resolves_example :
    lookup (fn_name 1 0) (
      load
        (record { seed = 2; fns = (5 x+ 1) ∷ [] } ∷ record { seed = 1; fns = (7 x- 3) ∷ [] } ∷ [])
        ((fn_name 1 0, 9 x+ 9) ∷ []))
    ≡ some (7 x- 3)
load-resolves_example =
    load-resolves
      (record { seed = 2; fns = (5 x+ 1) ∷ [] } ∷ record { seed = 1; fns = (7 x- 3) ∷ [] } ∷ [])
      ((fn_name 1 0, 9 x+ 9) ∷ []) 1 0 (record { seed = 1; fns = (7 x- 3) ∷ [] }) (7 x- 3)
      ((omega arith, tt), (tt, tt)) refl refl
