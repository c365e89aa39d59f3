-- ===== src/Concurrent/Work.antt =====
-- How far a goroutine is from its end, and that it can always move unless it waits for another.
use mathlib.Core.Option.{some-injective}
use cache_server_go.Base.{
  ℕ, ◌<◌, ◌≡◌, ◌≢◌, refl, ap, ◌∙◌, true, Option, none, some, Bytes, Bool, Bool-cases, inl, inr,
  arith,
}
use cache_server_go.L2.{Outside}
use cache_server_go.Manager.Store.{Settings}
use cache_server_go.Concurrent.Group.{Group, GroupLaws, Role, leads, waits}
use cache_server_go.Concurrent.Moves.{
  Shared, Pc, Move, idle, getting, looked, missed, l2_hit, l2_missed, leading, fetched, ran,
  waiting, answering, answered, setting, l1_set, deleting, l1_deleted, returned, after_look,
  after_redis, after_join, after_fetch, finish_call, look, end_look, ask_redis, fill, go_direct,
  go_join, ask_origin, store, return, end_call, end_get, set_l1, set_l2, delete_l1, delete_l2,
}
use cache_server_go.Concurrent.Flights.{ticket_of}

module _ (o : Outside) (g : Group) (settings : Settings) where
  open g use {Ticket, Table, join, result, is_open}

  -- A bound on the moves left.
  abbrev pub work : Pc o g settings → ℕ
  work idle = 0
  work (getting key start) = 9
  work (looked key start e) = 8
  work (missed key start) = 7
  work (l2_hit key start v) = 2
  work (l2_missed key start) = 6
  work (leading key start n) = 5
  work (fetched key start n v) = 4
  work (ran key start n r) = 3
  work (waiting key start n) = 2
  work (answering key start r) = 1
  work (answered key r) = 0
  work (setting key v) = 2
  work (l1_set key v) = 1
  work (deleting key) = 2
  work (l1_deleted key) = 1
  work (returned b) = 0

  -- `Get`, `Set` or `Invalidate` has returned.
  pub data IsDone : Pc o g settings → Type 0 where
    got : (key : Bytes) (r : Option Bytes) → IsDone (answered key r)
    wrote : (b : Bool) → IsDone (returned b)

  abbrev IsStarted : Pc o g settings → Type 0
  IsStarted idle = ⊥
  IsStarted _ = Unit

  pub data Next (s : Shared o g settings) : Pc o g settings → Type 0 where
    not_started : Next s idle
    done : {p : Pc o g settings} → IsDone p → Next s p
    blocked : (key : Bytes) (start : ℕ) (n : Ticket) → Next s (waiting key start n)
    moves :
        {p : Pc o g settings} (t : Shared o g settings) (q : Pc o g settings)
        → Move o g settings s p t q
        → work q < work p
        → q ≢ idle
        → Next s p

  pub after_look-work :
      (key : Bytes) (start : ℕ) (r : Option Bytes)
      → (work (after_look o g settings key start r) < 8)
        × (after_look o g settings key start r ≢ idle)
  unfolding after_look
  after_look-work key start none = (omega arith, λ e. cc)
  after_look-work key start (some v) = (omega arith, λ e. cc)

  pub after_redis-work :
      (key : Bytes) (start : ℕ) (r : Option Bytes)
      → (work (after_redis o g settings key start r) < 7)
        × (after_redis o g settings key start r ≢ idle)
  unfolding after_redis
  after_redis-work key start none = (omega arith, λ e. cc)
  after_redis-work key start (some v) = (omega arith, λ e. cc)

  pub after_join-work :
      (key : Bytes) (start : ℕ) (r : Role Ticket)
      → (work (after_join o g settings key start r) < 6)
        × (after_join o g settings key start r ≢ idle)
  unfolding after_join
  after_join-work key start (leads n) = (omega arith, λ e. cc)
  after_join-work key start (waits n) = (omega arith, λ e. cc)

  pub after_fetch-work :
      (key : Bytes) (start : ℕ) (n : Option Ticket) (r : Option Bytes)
      → (work (after_fetch o g settings key start n r) < 5)
        × (after_fetch o g settings key start n r ≢ idle)
  unfolding after_fetch
  after_fetch-work key start n none = (omega arith, λ e. cc)
  after_fetch-work key start n (some v) = (omega arith, λ e. cc)

  pub next : (s : Shared o g settings) (p : Pc o g settings) → Next s p
  next s idle = not_started
  next s (getting key start) = moves _ _ (look key start) (omega arith) (λ e. cc)
  next s (looked key start x) =
      let (lt, ne) = after_look-work key start _ in moves _ _ (end_look key start x) lt ne
  next s (missed key start) =
      let (lt, ne) = after_redis-work key start _ in moves _ _ (ask_redis key start) lt ne
  next s (l2_hit key start v) = moves _ _ (fill key start v) (omega arith) (λ e. cc)
  next s (l2_missed key start) = elim (Bool-cases settings.use_sf) [
    | inl on ↦ let (lt, ne) = after_join-work key start _ in moves _ _ (go_join key start on) lt ne
    | inr off ↦ moves _ _ (go_direct key start off) (omega arith) (λ e. cc)
  ]
  next s (leading key start n) =
      let (lt, ne) = after_fetch-work key start n _ in moves _ _ (ask_origin key start n) lt ne
  next s (fetched key start n v) = moves _ _ (store key start n v) (omega arith) (λ e. cc)
  next s (ran key start none r) = moves _ _ (return key start r) (omega arith) (λ e. cc)
  next s (ran key start (some n) r) = moves _ _ (end_call key start n r) (omega arith) (λ e. cc)
  next s (waiting key start n) = blocked key start n
  next s (answering key start r) = moves _ _ (end_get key start r) (omega arith) (λ e. cc)
  next s (answered key r) = done (got key r)
  next s (setting key v) = moves _ _ (set_l1 key v) (omega arith) (λ e. cc)
  next s (l1_set key v) = moves _ _ (set_l2 key v) (omega arith) (λ e. cc)
  next s (deleting key) = moves _ _ (delete_l1 key) (omega arith) (λ e. cc)
  next s (l1_deleted key) = moves _ _ (delete_l2 key) (omega arith) (λ e. cc)
  next s (returned b) = done (wrote b)

  -- A move of the leader of `n`: it ends the call, or is closer to that.
  pub data Leads (s : Shared o g settings) (p : Pc o g settings) (n : Ticket) : Type 0 where
    ends :
        (t : Shared o g settings) (q : Pc o g settings) (r : Option Bytes)
        → Move o g settings s p t q
        → result n t.table ≡ some r
        → Leads s p n
    goes :
        (t : Shared o g settings) (q : Pc o g settings)
        → Move o g settings s p t q
        → ticket_of o g settings q ≡ some n
        → work q < work p
        → Leads s p n

  after_fetch-ticket :
      (key : Bytes) (start : ℕ) (n : Option Ticket) (r : Option Bytes)
      → ticket_of o g settings (after_fetch o g settings key start n r) ≡ n
  unfolding after_fetch
  after_fetch-ticket key start n none = refl
  after_fetch-ticket key start n (some v) = refl

  pub lead :
      (laws : GroupLaws g) (s : Shared o g settings) (p : Pc o g settings) (n : Ticket)
      → ticket_of o g settings p ≡ some n
      → is_open n s.table ≡ true
      → Leads s p n
  unfolding finish_call
  lead laws s (leading key start m) n e op =
      goes _ _ (ask_origin key start m) (after_fetch-ticket key start m _ ∙ e)
        (after_fetch-work key start m _).0
  lead laws s (fetched key start m v) n e op = goes _ _ (store key start m v) e (omega arith)
  lead laws s (ran key start none r) n e op = absurd (cc)
  lead laws s (ran key start (some m) r) n e op = ends _ _ r (end_call key start m r) (
      ap (λ x. result n (g.finish x r s.table)) (some-injective _ _ e)
      ∙ laws.finish-result n r s.table op)
  lead laws s idle n e op = absurd (cc)
  lead laws s (getting key start) n e op = absurd (cc)
  lead laws s (looked key start x) n e op = absurd (cc)
  lead laws s (missed key start) n e op = absurd (cc)
  lead laws s (l2_hit key start v) n e op = absurd (cc)
  lead laws s (l2_missed key start) n e op = absurd (cc)
  lead laws s (waiting key start m) n e op = absurd (cc)
  lead laws s (answering key start r) n e op = absurd (cc)
  lead laws s (answered key r) n e op = absurd (cc)
  lead laws s (setting key v) n e op = absurd (cc)
  lead laws s (l1_set key v) n e op = absurd (cc)
  lead laws s (deleting key) n e op = absurd (cc)
  lead laws s (l1_deleted key) n e op = absurd (cc)
  lead laws s (returned b) n e op = absurd (cc)
