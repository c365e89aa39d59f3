-- ===== src/Concurrent/Alone.antt =====
-- A goroutine that runs `Get` by itself, against Manager/Store.antt.
use cache_server_go.Base.{
  ℕ, ◌≤◌, ◌≡◌, ◌⊎◌, inl, inr, refl, ap, ◌∙◌, false, Option, none, some, Bytes, arith,
}
use cache_server_go.L1.Race.{get-finish_get}
use cache_server_go.L2.{Outside}
use cache_server_go.Manager.Store as Store
use cache_server_go.Manager.Store.{Settings, State, Fetched}
use cache_server_go.Concurrent.Group.{Group}
use cache_server_go.Concurrent.Moves.{
  Shared, Pc, Move, idle, getting, looked, missed, l2_hit, l2_missed, leading, fetched, ran,
  waiting, answering, answered, setting, l1_set, deleting, l1_deleted, returned, look_value,
  end_of_look, look, end_look, ask_redis, fill, go_direct, ask_origin, store, return, end_get,
}
use cache_server_go.Concurrent.System.{
  Redis, System, Step, pick, write_back, drift, Runs, here, later, update,
}
use cache_server_go.Concurrent.Reaches.{update_self}
use cache_server_go.Concurrent.Work.{IsDone, got, wrote}
use cache_server_go.Concurrent.Bounded.{moves_of, moves-work, work-le}
use cache_server_go.Concurrent.Rest.{view, IsGet, rest, Move-Keeps_rest}

module _ (o : Outside) (g : Group) (settings : Settings) (d : Redis o) where
  open o use {now}

  -- The step is a move of goroutine `i`.
  abbrev pub IsMoveOf : (i : ℕ) {s t : System o g settings d} → Step o g settings d s t → Type 0
  IsMoveOf i (pick j mv) = j ≡ i
  IsMoveOf i (write_back before after key v e) = ⊥
  IsMoveOf i (drift w x) = ⊥

  -- Every step of the run is one: no other goroutine, no background write and no change of the world
  -- outside comes between.
  abbrev pub IsAlone : (i : ℕ) {s t : System o g settings d} → Runs o g settings d s t → Type 0
  IsAlone i here = Unit
  IsAlone i (later r st) = IsAlone i r × IsMoveOf i st

  -- A goroutine that has not returned, and has a next move.
  pub record CanMove (m : Shared o g settings) (p : Pc o g settings) : Type 0 where
    pub not_done : ¬ IsDone o g settings p
    pub after : Shared o g settings
    pub pc : Pc o g settings
    pub move : Move o g settings m p after pc

  -- In the `Get` that gives `f` in the end.
  record Gives (i : ℕ) (k : Bytes) (f : Fetched o settings) (s : System o g settings d)
      : Type 0 where
    gets : IsGet o g settings k (s.pc i)
    same : rest o g settings s.shared (s.pc i) ≡ f

  move-Gives :
      (i : ℕ) (k : Bytes) (f : Fetched o settings) (s : System o g settings d)
      (m : Shared o g settings) (q : Pc o g settings)
      → settings.use_sf ≡ false
      → Move o g settings s.shared (s.pc i) m q
      → Gives i k f s
      → Gives i k f (record { shared = m; pc = update s.pc i q })
  move-Gives i k f s m q off mv v =
      let x = Move-Keeps_rest o g settings k mv off v.gets in
      let at = update_self o g settings d s.pc i q in
      record { gets = rw at x.gets; same = rw at (x.same ∙ v.same) }

  Step-Gives :
      (i : ℕ) (k : Bytes) (f : Fetched o settings) {s t : System o g settings d}
      (st : Step o g settings d s t)
      → settings.use_sf ≡ false
      → IsMoveOf i st
      → Gives i k f s
      → Gives i k f t
  Step-Gives i k f {s} (pick j {m} {p = q} mv) off h v = at i h v
    where
      at :
          (i : ℕ)
          → j ≡ i
          → Gives i k f s
          → Gives i k f (record { shared = m; pc = update s.pc j q })
      at i h v = rw (← h) (move-Gives j k f s m q off mv (rw (← h) at v))
  Step-Gives i k f (write_back before after key x e) off h v = absurd h
  Step-Gives i k f (drift w x) off h v = absurd h

  Runs-Gives :
      (i : ℕ) (k : Bytes) (f : Fetched o settings) {s t : System o g settings d}
      (r : Runs o g settings d s t)
      → settings.use_sf ≡ false
      → IsAlone i r
      → Gives i k f s
      → Gives i k f t
  Runs-Gives i k f here off h v = v
  Runs-Gives i k f (later r st) off h v = Step-Gives i k f st off h.1 (Runs-Gives i k f r off h.0 v)

  IsFinal : Pc o g settings → Type 0
  IsFinal (answered key r) = Unit
  IsFinal (returned b) = Unit
  IsFinal _ = ⊥

  IsDone-IsFinal : {p : Pc o g settings} → IsDone o g settings p → IsFinal p
  unfolding IsFinal
  IsDone-IsFinal (got key r) = tt
  IsDone-IsFinal (wrote b) = tt

  can_move :
      {m t : Shared o g settings} {p q : Pc o g settings}
      → (IsFinal p → ⊥)
      → Move o g settings m p t q
      → CanMove m p
  can_move n mv = record { not_done = λ x. n (IsDone-IsFinal x); after = _; pc = _; move = mv }

  stands :
      (k : Bytes) (m : Shared o g settings) (p : Pc o g settings)
      → settings.use_sf ≡ false
      → IsGet o g settings k p
      → ((r : Option Bytes) × (p ≡ answered k r)) ⊎ CanMove m p
  unfolding IsFinal
  stands k m (getting key start) off h = inr (can_move (λ x. x) (look key start))
  stands k m (looked key start e) off h = inr (can_move (λ x. x) (end_look key start e))
  stands k m (missed key start) off h = inr (can_move (λ x. x) (ask_redis key start))
  stands k m (l2_hit key start v) off h = inr (can_move (λ x. x) (fill key start v))
  stands k m (l2_missed key start) off h = inr (can_move (λ x. x) (go_direct key start off))
  stands k m (leading key start n) off h = inr (can_move (λ x. x) (ask_origin key start n))
  stands k m (fetched key start n v) off h = inr (can_move (λ x. x) (store key start n v))
  stands k m (ran key start none r) off h = inr (can_move (λ x. x) (return key start r))
  stands k m (ran key start (some n) r) off h = absurd h
  stands k m (answering key start r) off h = inr (can_move (λ x. x) (end_get key start r))
  stands k m (answered key r) off h = inl (r, ap (λ x. answered x r) h)
  stands k m idle off h = absurd h
  stands k m (waiting key start n) off h = absurd h
  stands k m (setting key v) off h = absurd h
  stands k m (l1_set key v) off h = absurd h
  stands k m (deleting key) off h = absurd h
  stands k m (l1_deleted key) off h = absurd h
  stands k m (returned b) off h = absurd h

  start-Gives :
      (i : ℕ) (key : Bytes) (s : System o g settings d)
      → s.pc i ≡ getting key (now s.shared.world)
      → Gives i key (Store.get o settings key (view o g settings s.shared)) s
  unfolding Store.get end_of_look look_value
  start-Gives i key s e = record {
    gets = rw e refl;
    same = rw (e, get-finish_get key (now s.shared.world) s.shared.l1 s.shared.metrics) refl;
  }

  ends :
      (i : ℕ) (key : Bytes) (f : Fetched o settings) (u : System o g settings d) (r : Option Bytes)
      → Gives i key f u
      → u.pc i ≡ answered key r
      → (u.pc i ≡ answered key f.value) × (view o g settings u.shared ≡ f.state)
  ends i key f u r v e =
      let same : record { value = r; state = view o g settings u.shared } ≡ f = rw e at v.same in
      (
        e ∙ ap (λ (x : Fetched o settings). answered key x.value) same,
        ap (λ (x : Fetched o settings). x.state) same,
      )

  -- Without singleflight, in every run from the begin of a `Get` on in which its goroutine runs
  -- alone: it has made at most 9 moves, and it has answered what the sequential `get` answers and left
  -- what that leaves, or it has not returned yet and can move.
  pub get-alone :
      (i : ℕ) (key : Bytes) {s u : System o g settings d} (r : Runs o g settings d s u)
      → settings.use_sf ≡ false
      → s.pc i ≡ getting key (now s.shared.world)
      → IsAlone i r
      → let f = Store.get o settings key (view o g settings s.shared) in
        (moves_of o g settings d i r ≤ 9)
        × (((u.pc i ≡ answered key f.value) × (view o g settings u.shared ≡ f.state))
            ⊎ CanMove u.shared (u.pc i))
  get-alone i key {s} {u} r off e alone =
      let f = Store.get o settings key (view o g settings s.shared) in
      let v = Runs-Gives i key f r off alone (start-Gives i key s e) in
      (
        omega (
          arith,
          moves-work o g settings d i r (λ idles. cc (e, idles)),
          work-le o g settings d (s.pc i),
        ),
        elim (stands key u.shared (u.pc i) off v.gets) [
          | inl (a, at) ↦ inl (ends i key f u a v at)
          | inr goes ↦ inr goes
        ],
      )
