-- ===== src/Concurrent/Origins.antt =====
-- What is stored and what goroutines have in hand is known, in every state that a run leads to.
use cache_server_go.Base.{
  ℕ, ◌≡◌, refl, ap, ite, none, some, List, [], ◌∷◌, ◌++◌, Bytes, InList, ℕ_discrete,
}
use cache_server_go.L1.Shard.{new_shard, read}
use cache_server_go.L1.Cache.{shard_of, new_l1, per_shard}
use cache_server_go.L1.Valid.{new_l1-AllValid}
use cache_server_go.L2.{Outside}
use cache_server_go.Manager.Store.{Settings}
use cache_server_go.Concurrent.Group.{Group, GroupLaws}
use cache_server_go.Concurrent.Moves.{Shared, Pc, answered}
use cache_server_go.Concurrent.System.{
  Redis, System, Step, pick, write_back, drift, Runs, here, later, update, Starts,
}
use cache_server_go.Concurrent.Known.{
  Known, InHand, AllKnown, InHand-Grows, InList-middle, InList-wider,
}
use cache_server_go.Base.Maps.{lookup}
use cache_server_go.Concurrent.Provenance.{held_of_set, Move-Keeps}

module _ (o : Outside) (g : Group) (laws : GroupLaws g) (settings : Settings) (d : Redis o) where
  open o use {now, redis_set, redis_del}
  open g use {Ticket, Table, key_of, result, join, is_open}
  open d use {Holds, Drift}

  -- What is stored and what the goroutines have in hand is known.
  record Invariant (bound : ℕ) (s : System o g settings d) : Type 0 where
    all : AllKnown o g settings d bound s.shared
    hands : (i : ℕ) → InHand o g settings d s.shared.origins (s.pc i)

  update-InHand :
      (l : List (Bytes × Bytes)) (pc : ℕ → Pc o g settings) (i : ℕ) (p : Pc o g settings)
      → ((j : ℕ) → InHand o g settings d l (pc j))
      → InHand o g settings d l p
      → (j : ℕ) → InHand o g settings d l (update pc i p j)
  update-InHand l pc i p all h j =
      elim (ℕ_discrete i j) as (λ x. InHand o g settings d l (ite x p (pc j))) [
        | yes e ↦ h
        | no e ↦ all j
      ]

  -- A background write is of a known pair.
  writes_before :
      (bound : ℕ) (before after : List (Bytes × Bytes)) (key v : Bytes) (s : Shared o g settings)
      → AllKnown o g settings d bound s
      → s.writes ≡ before ++ ((key, v) ∷ after)
      → Known s.origins key v
        × ((k w : Bytes) → InList (k, w) (before ++ after) → Known s.origins k w)
  writes_before bound before after key v s a e = (
    a.written key v (rw e (InList-middle (key, v) before after)),
    λ k w i. a.written k w (rw e (InList-wider (k, w) (key, v) before after i)),
  )

  Step-Invariant :
      (bound : ℕ) {s t : System o g settings d}
      → Step o g settings d s t
      → Invariant bound s
      → Invariant bound t
  Step-Invariant bound {s} (pick i {m} {p} mv) v =
      let k = Move-Keeps o g laws settings d bound mv v.all (v.hands i) in
      record {
        all = k.all;
        hands =
            update-InHand m.origins s.pc i p
              (λ j.
                InHand-Grows o g settings d s.shared.origins m.origins (s.pc j) k.grows (v.hands j))
              k.hand;
      }
  Step-Invariant bound {s} (write_back before after key w e) v =
      let a = v.all in
      let (this, others) = writes_before bound before after key w s.shared a e in
      record {
        all = record {
          valid = a.valid;
          cached = a.cached;
          written = others;
          held = λ k x h. held_of_set o g laws settings d bound key w k x s.shared a this h;
          results = a.results;
        };
        hands = v.hands;
      }
  Step-Invariant bound {s} (drift w dr) v =
      let a = v.all in
      record {
        all = record {
          valid = a.valid;
          cached = a.cached;
          written = a.written;
          held = λ k x h. a.held k x (d.held_of_drift k x s.shared.world w dr h);
          results = a.results;
        };
        hands = v.hands;
      }

  Runs-Invariant :
      (bound : ℕ) {s t : System o g settings d}
      → Runs o g settings d s t
      → Invariant bound s
      → Invariant bound t
  Runs-Invariant bound here v = v
  Runs-Invariant bound (later r st) v = Step-Invariant bound st (Runs-Invariant bound r v)

  new_l1-empty : (k : Bytes) (max_size ttl : ℕ) → read k (shard_of k (new_l1 max_size ttl)) ≡ none
  unfolding new_l1 new_shard read shard_of lookup
  new_l1-empty k max_size ttl = refl

  Starts-Invariant :
      (max_size ttl : ℕ) (s : System o g settings d)
      → Starts o g settings d max_size ttl s
      → Invariant (per_shard max_size) s
  Starts-Invariant max_size ttl s z = record {
    all = record {
      valid = rw z.new (new_l1-AllValid max_size ttl);
      cached =
          λ k e r. absurd (cc (new_l1-empty k max_size ttl, ap (λ c. read k (shard_of k c)) z.new));
      written = λ k v i. no_write k v (rw z.no_writes at i);
      held = z.held;
      results = λ n v e. absurd (cc (z.no_results n));
    };
    hands = λ i. rw (z.idles i) tt;
  }
    where
      no_write : (k v : Bytes) → InList {A = Bytes × Bytes} (k, v) [] → Known s.shared.origins k v
      no_write k v (i, e) = absurd (cc)

  -- However `Get`, `Set` and `Invalidate` run at the same time, with the background writes to Redis
  -- and with singleflight, where no other process sets keys in Redis: every value that a `Get`
  -- answers with for its key was set by a client for that key, or given by the origin for it, or in
  -- Redis under it at the start.
  pub answers-Known :
      (max_size ttl : ℕ) {s t : System o g settings d}
      → Starts o g settings d max_size ttl s
      → Runs o g settings d s t
      → (i : ℕ) (key v : Bytes) → t.pc i ≡ answered key (some v)
      → InList (key, v) t.shared.origins
  answers-Known max_size ttl {s} {t} z r i key v e =
      in_hand (Runs-Invariant (per_shard max_size) r (Starts-Invariant max_size ttl s z)) e
    where
      in_hand :
          Invariant (per_shard max_size) t
          → t.pc i ≡ answered key (some v)
          → InList (key, v) t.shared.origins
      in_hand x e = let h = x.hands i in (rw e at h)
