-- ===== src/Concurrent/Bounded.antt =====
-- How many moves a request makes: a bound that holds for every schedule.
use cache_server_go.Base.{
  ℕ, ◌+◌, ◌≤◌, ◌<◌, ◌≡◌, ◌≢◌, refl, ap, sym, ◌∙◌, ite, if_pos, if_neg, ℕ_discrete, arith,
}
use cache_server_go.L2.{Outside}
use cache_server_go.Manager.Store.{Settings}
use cache_server_go.Concurrent.Group.{Group}
use cache_server_go.Concurrent.Moves.{
  Shared, Pc, Move, idle, getting, looked, missed, l2_hit, l2_missed, leading, fetched, ran,
  waiting, answering, answered, setting, l1_set, deleting, l1_deleted, returned, start_get, look,
  end_look, ask_redis, fill, go_direct, go_join, ask_origin, store, return, end_call, wake, end_get,
  start_set, set_l1, set_l2, start_delete, delete_l1, delete_l2,
}
use cache_server_go.Concurrent.System.{
  Redis, System, pick, write_back, drift, Runs, here, later, update,
}
use cache_server_go.Concurrent.Reaches.{update_self, update-other}
use cache_server_go.Concurrent.Work.{
  work, after_look-work, after_redis-work, after_join-work, after_fetch-work,
}

module _ (o : Outside) (g : Group) (settings : Settings) (d : Redis o) where
  -- The moves of goroutine `i` in a run.
  pub moves_of : (i : ℕ) {s t : System o g settings d} → Runs o g settings d s t → ℕ
  moves_of i here = 0
  moves_of i (later r (pick j mv)) = ite (ℕ_discrete i j) 1 0 + moves_of i r
  moves_of i (later r (write_back before after key v e)) = moves_of i r
  moves_of i (later r (drift w x)) = moves_of i r

  -- Every move of a request that has started brings it closer to its end.
  Move-work :
      {s t : Shared o g settings} {p q : Pc o g settings}
      → Move o g settings s p t q
      → p ≢ idle
      → (work o g settings q < work o g settings p) × (q ≢ idle)
  Move-work (start_get key) ne = absurd (ne refl)
  Move-work (look key start) ne = (omega arith, λ e. cc)
  Move-work (end_look key start e) ne = after_look-work o g settings key start _
  Move-work (ask_redis key start) ne = after_redis-work o g settings key start _
  Move-work (fill key start v) ne = (omega arith, λ e. cc)
  Move-work (go_direct key start off) ne = (omega arith, λ e. cc)
  Move-work (go_join key start on) ne = after_join-work o g settings key start _
  Move-work (ask_origin key start n) ne = after_fetch-work o g settings key start n _
  Move-work (store key start n v) ne = (omega arith, λ e. cc)
  Move-work (return key start r) ne = (omega arith, λ e. cc)
  Move-work (end_call key start n r) ne = (omega arith, λ e. cc)
  Move-work (wake key start n r e) ne = (omega arith, λ e. cc)
  Move-work (end_get key start r) ne = (omega arith, λ e. cc)
  Move-work (start_set key v) ne = absurd (ne refl)
  Move-work (set_l1 key v) ne = (omega arith, λ e. cc)
  Move-work (set_l2 key v) ne = (omega arith, λ e. cc)
  Move-work (start_delete key) ne = absurd (ne refl)
  Move-work (delete_l1 key) ne = (omega arith, λ e. cc)
  Move-work (delete_l2 key) ne = (omega arith, λ e. cc)

  -- One move of goroutine `j`, as goroutine `i` sees it.
  after_move :
      (i j : ℕ) (u : System o g settings d) (m : Shared o g settings) (q : Pc o g settings)
      → Move o g settings u.shared (u.pc j) m q
      → u.pc i ≢ idle
      → (ite (ℕ_discrete i j) 1 0 + work o g settings (update u.pc j q i)
          ≤ work o g settings (u.pc i))
        × (update u.pc j q i ≢ idle)
  after_move i j u m q mv ne = elim (ℕ_discrete i j) [
    | yes e ↦
        let (lt, started) = Move-work mv (λ idles. ne (ap u.pc e ∙ idles)) in
        let at : update u.pc j q i ≡ q =
          ap (update u.pc j q) e ∙ update_self o g settings d u.pc j q in
        (
          omega (
            arith,
            if_pos {C = ℕ} (ℕ_discrete i j) e 1 0,
            ap (work o g settings) at,
            ap (λ k. work o g settings (u.pc k)) e,
          ),
          λ idles. started (sym at ∙ idles),
        )
    | no n ↦
        let at = update-other o g settings d u.pc j i q (λ e. n (sym e)) in
        (
          omega (arith, if_neg {C = ℕ} (ℕ_discrete i j) n 1 0, ap (work o g settings) at),
          λ idles. ne (sym at ∙ idles),
        )
  ]

  -- A run takes from the moves that are left.
  pub moves-work :
      (i : ℕ) {s t : System o g settings d} (r : Runs o g settings d s t)
      → s.pc i ≢ idle
      → (moves_of i r + work o g settings (t.pc i) ≤ work o g settings (s.pc i)) × (t.pc i ≢ idle)
  unfolding moves_of
  moves-work i here ne = (omega arith, ne)
  moves-work i (later {t = u} r (pick j {m} {p = q} mv)) ne =
      let (le, started) = moves-work i r ne in
      let (one, started') = after_move i j u m q mv started in (omega (arith, le, one), started')
  moves-work i (later r (write_back before after key v e)) ne = moves-work i r ne
  moves-work i (later r (drift w x)) ne = moves-work i r ne

  pub work-le : (p : Pc o g settings) → work o g settings p ≤ 9
  work-le idle = omega arith
  work-le (getting key start) = omega arith
  work-le (looked key start e) = omega arith
  work-le (missed key start) = omega arith
  work-le (l2_hit key start v) = omega arith
  work-le (l2_missed key start) = omega arith
  work-le (leading key start n) = omega arith
  work-le (fetched key start n v) = omega arith
  work-le (ran key start n r) = omega arith
  work-le (waiting key start n) = omega arith
  work-le (answering key start r) = omega arith
  work-le (answered key r) = omega arith
  work-le (setting key v) = omega arith
  work-le (l1_set key v) = omega arith
  work-le (deleting key) = omega arith
  work-le (l1_deleted key) = omega arith
  work-le (returned b) = omega arith
