-- ===== src/Concurrent/Finish.antt =====
-- No request is stuck: whatever ran before, every request that has started can run to its end.
use cache_server_go.Base.{
  ℕ, zero, suc, ◌≤◌, ◌<◌, ◌≡◌, ◌≢◌, refl, ap, sym, ◌∙◌, inl, inr, Option, some, Bytes, arith,
}
use cache_server_go.L2.{Outside}
use cache_server_go.Manager.Store.{Settings}
use cache_server_go.Concurrent.Group.{Group, GroupLaws}
use cache_server_go.Concurrent.Moves.{Pc, idle, waiting, wake, end_get}
use cache_server_go.Concurrent.System.{Redis, System, pick, Runs, here, later, update, Starts}
use cache_server_go.Concurrent.Flights.{ticket_of, waits_for}
use cache_server_go.Concurrent.OneFetch.{InOrder, Step-InOrder, Runs-InOrder, Starts-InOrder}
use cache_server_go.Concurrent.Reaches.{then-Runs, update_self, update-other, Reaches, step_then}
use cache_server_go.Concurrent.Bounded.{moves_of, moves-work, work-le}
use cache_server_go.Concurrent.Work.{
  work, IsDone, got, Next, not_started, done, blocked, moves, next, ends, goes, lead,
}

module _ (o : Outside) (g : Group) (laws : GroupLaws g) (settings : Settings) (d : Redis o) where
  open g use {Ticket, result, is_open}

  -- The leader of an open call can end it, and no other goroutine moves meanwhile.
  record Ended (t : System o g settings d) (i : ℕ) (n : Ticket) : Type 0 where
    state : System o g settings d
    runs : Runs o g settings d t state
    order : InOrder o g laws settings d state
    answer : Option Bytes
    found : result n state.shared.table ≡ some answer
    same : state.pc i ≡ t.pc i

  leader_ends :
      (k i j : ℕ) (n : Ticket) (t : System o g settings d)
      → InOrder o g laws settings d t
      → ticket_of o g settings (t.pc j) ≡ some n
      → j ≢ i
      → work o g settings (t.pc j) < k
      → Ended t i n
  leader_ends zero i j n t v e other h = elim h [ ]
  leader_ends (suc k) i j n t v e other h =
      elim (lead o g settings laws t.shared (t.pc j) n e (v.opens.lead_open j n e)) [
        | ends s q r mv found ↦
            let st = pick j mv in
            record {
              state = _;
              runs = later here st;
              order = Step-InOrder o g laws settings d st v;
              answer = r;
              found = found;
              same = update-other o g settings d t.pc j i q other;
            }
        | goes s q mv keeps lt ↦
            let st = pick j mv in
            let self = update_self o g settings d t.pc j q in
            let x =
              leader_ends k i j n (record { shared = s; pc = update t.pc j q })
                (Step-InOrder o g laws settings d st v) (ap (ticket_of o g settings) self ∙ keeps)
                other (omega (arith, ap (work o g settings) self)) in
            record {
              state = x.state;
              runs = then-Runs o g settings d (later here st) x.runs;
              order = x.order;
              answer = x.answer;
              found = x.found;
              same = x.same ∙ update-other o g settings d t.pc j i q other;
            }
      ]

  -- A run leads to the return of goroutine `i`.
  abbrev Finishes : System o g settings d → ℕ → Type 0
  Finishes t i = Reaches o g settings d t (λ u. IsDone o g settings (u.pc i))

  -- A goroutine whose call has a result wakes and returns.
  wakes :
      (i : ℕ) (key : Bytes) (start : ℕ) (n : Ticket) (r : Option Bytes) (t : System o g settings d)
      → t.pc i ≡ waiting key start n
      → result n t.shared.table ≡ some r
      → Finishes t i
  wakes i key start n r t e found =
      step_then o g settings d i t _ _ _ _ e (wake key start n r found) (λ st at_u.
        step_then o g settings d i _ _ _ _ _ at_u (end_get key start r)
          (λ st' at_w. (_, here, rw at_w (got key r))))

  -- The ticket that a waiting goroutine waits for, and its leader if the call is open.
  waits_out :
      (i : ℕ) (key : Bytes) (start : ℕ) (n : Ticket) (t : System o g settings d)
      → InOrder o g laws settings d t
      → t.pc i ≡ waiting key start n
      → Finishes t i
  waits_out i key start n t v e = elim (v.opens.waited i n (ap (waits_for o g settings) e)) [
    | inr (r, found) ↦ wakes i key start n r t e found
    | inl op ↦
        let (j, leads) = v.opens.led n op in
        let x =
          leader_ends (suc (work o g settings (t.pc j))) i j n t v leads (other j leads)
            (omega arith) in
        let (u, r, fin) = wakes i key start n x.answer x.state (x.same ∙ e) x.found in
        (u, then-Runs o g settings d x.runs r, fin)
  ]
    where
      other : (j : ℕ) → ticket_of o g settings (t.pc j) ≡ some n → j ≢ i
      other j leads same =
          cc (leads, ap (λ k. ticket_of o g settings (t.pc k)) same, ap (ticket_of o g settings) e)

  run_on :
      (k i : ℕ) (t : System o g settings d) (p : Pc o g settings)
      → InOrder o g laws settings d t
      → t.pc i ≡ p
      → work o g settings p < suc k
      → p ≢ idle
      → Next o g settings t.shared p
      → ((u : System o g settings d)
          → InOrder o g laws settings d u
          → work o g settings (u.pc i) < k
          → u.pc i ≢ idle
          → Finishes u i)
      → Finishes t i
  run_on k i t p v e h ne not_started rest = absurd (ne refl)
  run_on k i t p v e h ne (done fin) rest = (t, here, rw e fin)
  run_on k i t p v e h ne (blocked key start n) rest = waits_out i key start n t v e
  run_on k i t p v e h ne (moves m q mv lt started) rest =
      step_then o g settings d i t p q m _ e mv (λ st at_u.
        rest _ (Step-InOrder o g laws settings d st v) (omega (arith, ap (work o g settings) at_u))
          (λ x. started (sym at_u ∙ x)))

  run_out :
      (k i : ℕ) (t : System o g settings d)
      → InOrder o g laws settings d t
      → work o g settings (t.pc i) < k
      → t.pc i ≢ idle
      → Finishes t i
  run_out zero i t v h ne = elim h [ ]
  run_out (suc k) i t v h ne =
      run_on k i t (t.pc i) v refl h ne (next o g settings t.shared (t.pc i)) (run_out k i)

  -- Whatever ran before: a request that has started makes at most 9 more moves, in every run that
  -- follows, and from every such state some run leads to its return.
  pub request-IsDone :
      (max_size ttl : ℕ) {s t : System o g settings d}
      → Starts o g settings d max_size ttl s
      → Runs o g settings d s t
      → (i : ℕ) → t.pc i ≢ idle
      → ((u : System o g settings d)
          → (r : Runs o g settings d t u) → moves_of o g settings d i r ≤ 9)
        × ((u : System o g settings d) × Runs o g settings d t u × IsDone o g settings (u.pc i))
  request-IsDone max_size ttl {s} {t} z r i ne = (
    λ u later_run.
        omega (arith, moves-work o g settings d i later_run ne, work-le o g settings d (t.pc i)),
    run_out (suc (work o g settings (t.pc i))) i t
        (Runs-InOrder o g laws settings d r (Starts-InOrder o g laws settings d max_size ttl s z))
        (omega arith) ne,
  )
