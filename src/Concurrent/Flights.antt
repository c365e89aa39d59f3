-- ===== src/Concurrent/Flights.antt =====
-- What a move does to the calls of the group.
use cache_server_go.Base.{ℕ, ◌≡◌, refl, false, Option, none, some, Bytes}
use cache_server_go.L2.{Outside}
use cache_server_go.Manager.Store.{Settings}
use cache_server_go.Concurrent.Group.{Group, Role, leads, waits}
use cache_server_go.Concurrent.Moves.{
  Shared, Pc, Move, l2_missed, leading, fetched, ran, waiting, after_look, after_redis, after_join,
  take_fetched, after_fetch, call_origin, store_l1, finish_call, end_of_look, call_redis, start_get,
  look, end_look, ask_redis, fill, go_direct, go_join, ask_origin, store, return, end_call, wake,
  end_get, start_set, set_l1, set_l2, start_delete, delete_l1, delete_l2,
}

module _ (o : Outside) (g : Group) (settings : Settings) where
  open o use {fetch}
  open g use {Ticket, Table, join, finish}

  -- The call of the group that a goroutine leads, and the one that it waits for.
  abbrev pub ticket_of : Pc o g settings → Option Ticket
  ticket_of (leading key start n) = n
  ticket_of (fetched key start n v) = n
  ticket_of (ran key start n r) = n
  ticket_of _ = none

  abbrev pub waits_for : Pc o g settings → Option Ticket
  waits_for (waiting key start n) = some n
  waits_for _ = none

  -- Without singleflight a goroutine has no ticket at the origin; with it, it has one of its key.
  abbrev pub HasTicket : Pc o g settings → Type 0
  HasTicket (leading key start none) = settings.use_sf ≡ false
  HasTicket (leading key start (some n)) = g.key_of n ≡ key
  HasTicket _ = Unit

  -- What a move does to the calls of the group.
  pub data Effect (s t : Shared o g settings) (p q : Pc o g settings) : Type 0 where
    calm :
        t.table ≡ s.table
        → ticket_of q ≡ ticket_of p
        → ((n : Ticket) → waits_for q ≡ some n → waits_for p ≡ some n)
        → Effect s t p q
    led :
        (key : Bytes) (n : Ticket)
        → t.table ≡ (join key s.table).1
        → (join key s.table).0 ≡ leads n
        → ticket_of p ≡ none
        → ticket_of q ≡ some n
        → ((m : Ticket) → waits_for q ≡ some m → waits_for p ≡ some m)
        → Effect s t p q
    waited :
        (key : Bytes) (n : Ticket)
        → t.table ≡ (join key s.table).1
        → (join key s.table).0 ≡ waits n
        → ticket_of q ≡ ticket_of p
        → waits_for q ≡ some n
        → Effect s t p q
    ended :
        (n : Ticket) (r : Option Bytes)
        → t.table ≡ finish n r s.table
        → ticket_of p ≡ some n
        → ticket_of q ≡ none
        → ((m : Ticket) → waits_for q ≡ some m → waits_for p ≡ some m)
        → Effect s t p q

  never :
      (q : Option Ticket) → q ≡ none → (p : Option Ticket) (n : Ticket) → q ≡ some n → p ≡ some n
  never q e p n h = absurd (cc)

  after_look-tickets :
      (key : Bytes) (start : ℕ) (r : Option Bytes)
      → (ticket_of (after_look o g settings key start r) ≡ none)
        × (waits_for (after_look o g settings key start r) ≡ none)
  unfolding after_look
  after_look-tickets key start none = (refl, refl)
  after_look-tickets key start (some v) = (refl, refl)

  after_redis-tickets :
      (key : Bytes) (start : ℕ) (r : Option Bytes)
      → (ticket_of (after_redis o g settings key start r) ≡ none)
        × (waits_for (after_redis o g settings key start r) ≡ none)
  unfolding after_redis
  after_redis-tickets key start none = (refl, refl)
  after_redis-tickets key start (some v) = (refl, refl)

  after_fetch-tickets :
      (key : Bytes) (start : ℕ) (n : Option Ticket) (r : Option Bytes)
      → (ticket_of (after_fetch o g settings key start n r) ≡ n)
        × (waits_for (after_fetch o g settings key start n r) ≡ none)
  unfolding after_fetch
  after_fetch-tickets key start n none = (refl, refl)
  after_fetch-tickets key start n (some v) = (refl, refl)

  call_origin-table :
      (key : Bytes) (s : Shared o g settings) → (call_origin o g settings key s).table ≡ s.table
  unfolding call_origin
  call_origin-table key s = taken (fetch key s.world).0 _
    where
      taken :
          (r : Option Bytes) (x : Shared o g settings)
          → (take_fetched o g settings key r x).table ≡ x.table
      taken none x = refl
      taken (some v) x = refl

  join-Effect :
      (key : Bytes) (start : ℕ) (r : Role Ticket) (s : Shared o g settings)
      → (join key s.table).0 ≡ r
      → Effect s
          (record s { table = (join key s.table).1 })
          (l2_missed key start)
          (after_join o g settings key start r)
  unfolding after_join
  join-Effect key start (leads n) s e = led key n refl e refl refl (λ m h. absurd (cc))
  join-Effect key start (waits n) s e = waited key n refl e refl refl

  pub Move-Effect :
      {s t : Shared o g settings} {p q : Pc o g settings}
      → Move o g settings s p t q
      → Effect s t p q
  unfolding end_of_look call_redis store_l1 finish_call
  Move-Effect (start_get key) = calm refl refl (λ n h. h)
  Move-Effect (look key start) = calm refl refl (λ n h. h)
  Move-Effect (end_look key start e) =
      let (t, w) = after_look-tickets key start _ in calm refl t (never _ w _)
  Move-Effect (ask_redis key start) =
      let (t, w) = after_redis-tickets key start _ in calm refl t (never _ w _)
  Move-Effect (fill key start v) = calm refl refl (λ n h. h)
  Move-Effect (go_direct key start sf) = calm refl refl (λ n h. h)
  Move-Effect {s} (go_join key start sf) = join-Effect key start (join key s.table).0 s refl
  Move-Effect {s} (ask_origin key start n) =
      let (t, w) = after_fetch-tickets key start n _ in
      calm (call_origin-table key s) t (never _ w _)
  Move-Effect (store key start n v) = calm refl refl (λ n h. h)
  Move-Effect (return key start r) = calm refl refl (λ n h. h)
  Move-Effect (end_call key start n r) = ended n r refl refl refl (λ m h. h)
  Move-Effect (wake key start n r e) = calm refl refl (λ m h. absurd (cc))
  Move-Effect (end_get key start r) = calm refl refl (λ n h. h)
  Move-Effect (start_set key v) = calm refl refl (λ n h. h)
  Move-Effect (set_l1 key v) = calm refl refl (λ n h. h)
  Move-Effect (set_l2 key v) = calm refl refl (λ n h. h)
  Move-Effect (start_delete key) = calm refl refl (λ n h. h)
  Move-Effect (delete_l1 key) = calm refl refl (λ n h. h)
  Move-Effect (delete_l2 key) = calm refl refl (λ n h. h)
