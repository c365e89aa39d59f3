-- ===== src/Concurrent/Reaches.antt =====
-- Runs that a goroutine makes by itself, a move at a time.
use cache_server_go.Base.{ℕ, ◌≡◌, ◌≢◌, refl, if_pos, if_neg, ℕ_discrete}
use cache_server_go.L2.{Outside}
use cache_server_go.Manager.Store.{Settings}
use cache_server_go.Concurrent.Group.{Group}
use cache_server_go.Concurrent.Moves.{Shared, Pc, Move}
use cache_server_go.Concurrent.System.{Redis, System, Step, pick, Runs, here, later, update}

module _ (o : Outside) (g : Group) (settings : Settings) (d : Redis o) where
  pub then-Runs :
      {s t u : System o g settings d}
      → Runs o g settings d s t
      → Runs o g settings d t u
      → Runs o g settings d s u
  then-Runs r here = r
  then-Runs r (later r' st) = later (then-Runs r r') st

  pub update_self : (pc : ℕ → Pc o g settings) (i : ℕ) (p : Pc o g settings) → update pc i p i ≡ p
  update_self pc i p = if_pos (ℕ_discrete i i) refl _ _

  pub update-other :
      (pc : ℕ → Pc o g settings) (i j : ℕ) (p : Pc o g settings) → i ≢ j → update pc i p j ≡ pc j
  update-other pc i j p n = if_neg (ℕ_discrete i j) n _ _

  -- Some run from `t` leads to a state with `Q`.
  abbrev pub Reaches : System o g settings d → (System o g settings d → Type 0) → Type 0
  Reaches t Q = (u : System o g settings d) × Runs o g settings d t u × Q u

  -- A move of goroutine `i`, and then the rest.
  pub step_then :
      (i : ℕ) (t : System o g settings d) (p q : Pc o g settings) (m : Shared o g settings)
      (Q : System o g settings d → Type 0)
      → t.pc i ≡ p
      → Move o g settings t.shared p m q
      → (Step o g settings d t (record { shared = m; pc = update t.pc i q })
          → update t.pc i q i ≡ q
          → Reaches (record { shared = m; pc = update t.pc i q }) Q)
      → Reaches t Q
  step_then i t p q m Q e mv rest =
      let st : Step o g settings d t (record { shared = m; pc = update t.pc i q }) =
        pick i (rw e mv) in
      let (u, r, fin) = rest st (update_self t.pc i q) in (u, then-Runs (later here st) r, fin)
