-- ===== src/Concurrent/OneFetch.antt =====
-- With singleflight on, no two goroutines ask the origin for the same key at the same time.
use cache_server_go.Base.{
  ℕ, ◌≡◌, ◌≢◌, refl, ap, sym, ◌∙◌, ◌⊎◌, inl, inr, ite, if_pos, true, false, Option, none, some,
  Bytes, ℕ_discrete,
}
use cache_server_go.L2.{Outside}
use cache_server_go.Manager.Store.{Settings}
use cache_server_go.Concurrent.Group.{Group, GroupLaws, Role, leads, waits}
use cache_server_go.Concurrent.Moves.{
  Shared, Pc, Move, leading, after_look, after_redis, after_join, after_fetch, start_get, look,
  end_look, ask_redis, fill, go_direct, go_join, ask_origin, store, return, end_call, wake, end_get,
  start_set, set_l1, set_l2, start_delete, delete_l1, delete_l2,
}
use cache_server_go.Concurrent.System.{
  Redis, System, Step, pick, write_back, drift, Runs, here, later, update, Starts,
}
use cache_server_go.Concurrent.Tickets.{
  Opens, Opens-calm, Changes, Opens-leads, Opens-waits, Opens-finish,
}
use cache_server_go.Concurrent.Flights.{
  ticket_of, waits_for, HasTicket, Effect, calm, led, waited, ended, Move-Effect,
}

module _ (o : Outside) (g : Group) (laws : GroupLaws g) (settings : Settings) (d : Redis o) where
  open g use {Ticket, Table, join}

  update-eq :
      {A : Type 0} (f : Pc o g settings → A) (pc : ℕ → Pc o g settings) (i : ℕ)
      (p : Pc o g settings)
      → f p ≡ f (pc i)
      → (j : ℕ) → f (update pc i p j) ≡ f (pc j)
  update-eq f pc i p e j = elim (ℕ_discrete i j) as (λ x. f (ite x p (pc j)) ≡ f (pc j)) [
    | yes same ↦ e ∙ ap (λ k. f (pc k)) same
    | no other ↦ refl
  ]

  update-back :
      (f : Pc o g settings → Option Ticket) (pc : ℕ → Pc o g settings) (i : ℕ) (p : Pc o g settings)
      → ((n : Ticket) → f p ≡ some n → f (pc i) ≡ some n)
      → (j : ℕ) (n : Ticket) → f (update pc i p j) ≡ some n
      → f (pc j) ≡ some n
  update-back f pc i p back j n =
      elim (ℕ_discrete i j) as (λ x. f (ite x p (pc j)) ≡ some n → f (pc j) ≡ some n) [
        | yes same ↦ λ e. ap (λ k. f (pc k)) (sym same) ∙ back n e
        | no other ↦ λ e. e
      ]

  update-Changes :
      (f : Pc o g settings → Option Ticket) (pc : ℕ → Pc o g settings) (i : ℕ) (p : Pc o g settings)
      (a : Option Ticket)
      → f p ≡ a
      → Changes g (λ j. f (pc j)) (λ j. f (update pc i p j)) i a
  update-Changes f pc i p a e = record {
    here = ap f (if_pos (ℕ_discrete i i) refl _ _) ∙ e;
    at = λ j.
        elim (ℕ_discrete i j)
          as (λ x.
            ((j ≡ i) × (f (ite x p (pc j)) ≡ a)) ⊎ ((j ≢ i) × (f (ite x p (pc j)) ≡ f (pc j)))) [
              | yes same ↦ inl (sym same, e)
              | no other ↦ inr ((λ q. other (sym q)), refl)
            ];
  }

  -- The calls of the group are in order, and no goroutine is at the origin without a ticket.
  pub record InOrder (s : System o g settings d) : Type 0 where
    pub opens :
        Opens g s.shared.table
          (λ i. ticket_of o g settings (s.pc i))
          (λ i. waits_for o g settings (s.pc i))
    pub tickets : (i : ℕ) → HasTicket o g settings (s.pc i)

  Effect-Opens :
      (s t : Shared o g settings) (pc : ℕ → Pc o g settings) (i : ℕ) (q : Pc o g settings)
      → Effect o g settings s t (pc i) q
      → Opens g s.table (λ j. ticket_of o g settings (pc j)) (λ j. waits_for o g settings (pc j))
      → Opens g t.table
          (λ j. ticket_of o g settings (update pc i q j))
          (λ j. waits_for o g settings (update pc i q j))
  Effect-Opens s t pc i q (calm table tk wf) v = rw table (
      Opens-calm g s.table _ _ _ _ (update-eq (ticket_of o g settings) pc i q tk)
        (update-back (waits_for o g settings) pc i q wf) v)
  Effect-Opens s t pc i q (led key n table role free tk wf) v = rw table (
      Opens-leads g laws key n s.table _ _ _ _ i role free
        (update-Changes (ticket_of o g settings) pc i q (some n) tk)
        (update-back (waits_for o g settings) pc i q wf) v)
  Effect-Opens s t pc i q (waited key n table role tk wf) v = rw table (
      Opens-waits g laws key n s.table _ _ _ _ i role (update-eq (ticket_of o g settings) pc i q tk)
        (update-Changes (waits_for o g settings) pc i q (some n) wf) v)
  Effect-Opens s t pc i q (ended n r table lead tk wf) v = rw table (
      Opens-finish g laws n r s.table _ _ _ _ i lead
        (update-Changes (ticket_of o g settings) pc i q none tk)
        (update-back (waits_for o g settings) pc i q wf) v)

  join-HasTicket :
      (key : Bytes) (start : ℕ) (r : Role Ticket) (t : Table)
      → (join key t).0 ≡ r
      → HasTicket o g settings (after_join o g settings key start r)
  unfolding after_join
  join-HasTicket key start (leads n) t e = (laws.leads_new key n t e).0
  join-HasTicket key start (waits n) t e = tt

  look-HasTicket :
      (key : Bytes) (start : ℕ) (r : Option Bytes)
      → HasTicket o g settings (after_look o g settings key start r)
  unfolding after_look
  look-HasTicket key start none = tt
  look-HasTicket key start (some v) = tt

  redis-HasTicket :
      (key : Bytes) (start : ℕ) (r : Option Bytes)
      → HasTicket o g settings (after_redis o g settings key start r)
  unfolding after_redis
  redis-HasTicket key start none = tt
  redis-HasTicket key start (some v) = tt

  fetch-HasTicket :
      (key : Bytes) (start : ℕ) (n : Option Ticket) (r : Option Bytes)
      → HasTicket o g settings (after_fetch o g settings key start n r)
  unfolding after_fetch
  fetch-HasTicket key start n none = tt
  fetch-HasTicket key start n (some v) = tt

  Move-HasTicket :
      {s t : Shared o g settings} {p q : Pc o g settings}
      → Move o g settings s p t q
      → HasTicket o g settings q
  Move-HasTicket (start_get key) = tt
  Move-HasTicket (look key start) = tt
  Move-HasTicket (end_look key start e) = look-HasTicket key start _
  Move-HasTicket (ask_redis key start) = redis-HasTicket key start _
  Move-HasTicket (fill key start v) = tt
  Move-HasTicket (go_direct key start sf) = sf
  Move-HasTicket {s} (go_join key start sf) = join-HasTicket key start _ s.table refl
  Move-HasTicket (ask_origin key start n) = fetch-HasTicket key start n _
  Move-HasTicket (store key start n v) = tt
  Move-HasTicket (return key start r) = tt
  Move-HasTicket (end_call key start n r) = tt
  Move-HasTicket (wake key start n r e) = tt
  Move-HasTicket (end_get key start r) = tt
  Move-HasTicket (start_set key v) = tt
  Move-HasTicket (set_l1 key v) = tt
  Move-HasTicket (set_l2 key v) = tt
  Move-HasTicket (start_delete key) = tt
  Move-HasTicket (delete_l1 key) = tt
  Move-HasTicket (delete_l2 key) = tt

  pub Step-InOrder : {s t : System o g settings d} → Step o g settings d s t → InOrder s → InOrder t
  Step-InOrder {s} (pick i {m} {p} mv) v = record {
    opens = Effect-Opens s.shared m s.pc i p (Move-Effect o g settings mv) v.opens;
    tickets = λ j. elim (ℕ_discrete i j) as (λ x. HasTicket o g settings (ite x p (s.pc j))) [
      | yes same ↦ Move-HasTicket mv
      | no other ↦ v.tickets j
    ];
  }
  Step-InOrder (write_back before after key v e) x = record { opens = x.opens; tickets = x.tickets }
  Step-InOrder (drift w dr) x = record { opens = x.opens; tickets = x.tickets }

  pub Runs-InOrder : {s t : System o g settings d} → Runs o g settings d s t → InOrder s → InOrder t
  Runs-InOrder here v = v
  Runs-InOrder (later r st) v = Step-InOrder st (Runs-InOrder r v)

  pub Starts-InOrder :
      (max_size ttl : ℕ) (s : System o g settings d)
      → Starts o g settings d max_size ttl s
      → InOrder s
  Starts-InOrder max_size ttl s z = record {
    opens = record {
      lead_open = λ i n h. absurd (cc (no_ticket i, h));
      unique = λ i j n h k. absurd (cc (no_ticket i, h));
      led = λ n h. absurd (cc (z.none_open n, h));
      waited = λ i n h. absurd (cc (ap (waits_for o g settings) (z.idles i), h));
    };
    tickets = λ i. rw (z.idles i) tt;
  }
    where
      no_ticket : (i : ℕ) → ticket_of o g settings (s.pc i) ≡ none
      no_ticket i = ap (ticket_of o g settings) (z.idles i)

  at_origin :
      (key : Bytes) (a : ℕ) (n : Option Ticket) (p : Pc o g settings)
      → settings.use_sf ≡ true
      → p ≡ leading key a n
      → HasTicket o g settings p
      → (m : Ticket) × (ticket_of o g settings p ≡ some m) × (g.key_of m ≡ key)
  at_origin key a none p sf e h = absurd (cc (sf, no_ticket))
    where
      no_ticket : settings.use_sf ≡ false
      no_ticket = rw e at h
  at_origin key a (some m) p sf e h = (m, ap (ticket_of o g settings) e, rw e at h)

  -- With singleflight on, and however requests run at the same time, two goroutines that are about
  -- to call the origin for the same key are one.
  pub one_fetch :
      (max_size ttl : ℕ) {s t : System o g settings d}
      → settings.use_sf ≡ true
      → Starts o g settings d max_size ttl s
      → Runs o g settings d s t
      → (i j : ℕ) (key : Bytes) (a b : ℕ) (m n : Option Ticket) → t.pc i ≡ leading key a m
      → t.pc j ≡ leading key b n
      → i ≡ j
  one_fetch max_size ttl {s} {t} sf z r i j key a b m n hi hj =
      let v = Runs-InOrder r (Starts-InOrder max_size ttl s z) in
      let (x, tx, kx) = at_origin key a m (t.pc i) sf hi (v.tickets i) in
      let (y, ty, ky) = at_origin key b n (t.pc j) sf hj (v.tickets j) in
      let same =
        laws.one_open x y t.shared.table (v.opens.lead_open i x tx) (v.opens.lead_open j y ty)
          (kx ∙ sym ky) in
      v.opens.unique i j x tx (ty ∙ ap some (sym same))
