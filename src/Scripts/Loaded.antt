-- ===== src/Scripts/Loaded.antt =====
-- The sample scripts of the repository, loaded together.
use cache_server_go.Base.{
  ℕ, suc, ◌≤◌, ◌<◌, ◌≡◌, refl, ◌≢◌, List, [], ◌∷◌, arith, pos_part, neg_part, All, Bool, true, ◌&&◌,
  ltb, leb, Bytes, length, pos,
}
use cache_server_go.Base.Maps.{lookup}
use cache_server_go.Scripts.Fn.{Fn, Script, Numbers}
use cache_server_go.Scripts.Page.{load, Distinct}
use cache_server_go.Scripts.Calls.{
  IsGenerated, AllGenerated, load-AllGenerated, IsRounded, run_calls, raised, InOrder, AtMost,
  run_calls-InOrder, run_calls-AtMost,
}
use cache_server_go.Scripts.Tables.{all_scripts}

is_generated : Fn → Bool
is_generated f =
    ltb 0 f.scale
    && ltb f.scale 1_000_000
    && leb (pos_part f.offset) 100
    && leb (neg_part f.offset) 100

all_generated : List Fn → Bool
all_generated [] = true
all_generated (f ∷ fs) = is_generated f && all_generated fs

all_scripts_generated : List Script → Bool
all_scripts_generated [] = true
all_scripts_generated (s ∷ ss) = all_generated s.fns && all_scripts_generated ss

is_generated_sound : (f : Fn) → is_generated f ≡ true → IsGenerated f
unfolding is_generated
is_generated_sound f h = ground arith

all_generated_sound : (fs : List Fn) → all_generated fs ≡ true → All IsGenerated fs
unfolding all_generated
all_generated_sound [] h = tt
all_generated_sound (f ∷ fs) h =
    (is_generated_sound f (ground arith), all_generated_sound fs (ground arith))

scripts_sound :
    (ss : List Script) → all_scripts_generated ss ≡ true → All (λ s. All IsGenerated s.fns) ss
unfolding all_scripts_generated
scripts_sound [] h = tt
scripts_sound (s ∷ ss) h =
    (all_generated_sound s.fns (ground arith), scripts_sound ss (ground arith))

all_scripts_check : all_scripts_generated all_scripts ≡ true
unfolding all_scripts all_scripts_generated all_generated is_generated
all_scripts_check = refl

pub all_scripts-AllGenerated : AllGenerated (load all_scripts [])
unfolding lookup
all_scripts-AllGenerated =
    load-AllGenerated all_scripts [] (scripts_sound all_scripts all_scripts_check)
      (λ q f e. absurd (cc))

-- The numbers rise from script to script.
abbrev Rising : ℕ → List Script → Type 0
Rising lo [] = Unit
Rising lo (s ∷ ss) = (lo ≤ s.seed) × Rising (suc s.seed) ss

Rising-All : (lo : ℕ) (x : ℕ) (ss : List Script) → x < lo → Rising lo ss → All (λ t. t.seed ≢ x) ss
Rising-All lo x [] h r = tt
Rising-All lo x (s ∷ ss) h r =
    ((λ e. absurd (omega (arith, r.0))), Rising-All (suc s.seed) x ss (omega (arith, r.0)) r.1)

Rising-Distinct : (lo : ℕ) (ss : List Script) → Rising lo ss → Distinct ss
Rising-Distinct lo [] r = tt
Rising-Distinct lo (s ∷ ss) r =
    (Rising-All (suc s.seed) s.seed ss (omega arith) r.1, Rising-Distinct (suc s.seed) ss r.1)

pub all_scripts-Distinct : Distinct all_scripts
unfolding all_scripts
all_scripts-Distinct = Rising-Distinct 3000 all_scripts (omega arith)

module _ (n : Numbers) (laws : IsRounded n) where
  open n use {Number, of_int, le}

  -- On a page with the 30 sample scripts, any sequence of calls by name is monotone: from two
  -- arguments in order come two results in order, or both sequences fail on a name that is not
  -- bound.
  pub page_calls-InOrder :
      (qs : List Bytes) (x y : Number)
      → le x y
      → InOrder n (run_calls n (load all_scripts []) qs x) (run_calls n (load all_scripts []) qs y)
  page_calls-InOrder qs x y =
      run_calls-InOrder n laws (load all_scripts []) qs x y all_scripts-AllGenerated

  -- On such a page `k` calls raise a bound of the argument that is not negative by at most `k`
  -- additions of 100.
  pub page_calls-AtMost :
      (qs : List Bytes) (x top : Number)
      → le x top
      → le (of_int (pos 0)) top
      → AtMost n (raised n (length qs) top) (run_calls n (load all_scripts []) qs x)
  page_calls-AtMost qs x top =
      run_calls-AtMost n laws (load all_scripts []) qs x top all_scripts-AllGenerated
