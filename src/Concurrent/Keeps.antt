-- ===== src/Concurrent/Keeps.antt =====
-- What the moves of `Get` keep known.
use mathlib.Core.Option.{some-injective}
use cache_server_go.Base.{
  ℕ, zero, ◌≡◌, refl, ap, inl, inr, Option, none, some, List, ◌∷◌, Bytes, arith,
}
use cache_server_go.L1.Shard.{Entry}
use cache_server_go.L1.Valid.{set-AllValid}
use cache_server_go.L2.{Outside, found, l2_get}
use cache_server_go.Metrics.{Metrics}
use cache_server_go.Manager.Store.{Settings}
use cache_server_go.Concurrent.Group.{Group}
use cache_server_go.Concurrent.Moves.{
  Shared, Pc, looked, after_look, after_redis, take_fetched, after_fetch, call_origin, store_l1,
  look_value, end_of_look, call_redis,
}
use cache_server_go.Concurrent.System.{Redis}
use cache_server_go.Concurrent.Reads.{
  finish_get-reads, finish_get-value, finish_get-AllValid, set-reads,
}
use cache_server_go.Concurrent.Known.{
  Known, Grows, Grows-cons, InList-append, OfKey, InHand, AllKnown,
}

module _ (o : Outside) (g : Group) (settings : Settings) (d : Redis o) where
  open o use {now, redis_get, redis_set, redis_del, fetch}
  open g use {Ticket, key_of, result}
  open d use {Holds}

  -- What a move keeps.
  pub record Keeps (bound : ℕ) (s t : Shared o g settings) (p : Pc o g settings) : Type 0 where
    pub all : AllKnown o g settings d bound t
    pub hand : InHand o g settings d t.origins p
    pub grows : Grows s.origins t.origins

  pub store_l1-AllKnown :
      (bound : ℕ) (key v : Bytes) (s : Shared o g settings)
      → AllKnown o g settings d bound s
      → Known s.origins key v
      → AllKnown o g settings d bound (store_l1 o g settings key v s)
  unfolding store_l1
  store_l1-AllKnown bound key v s a h = record {
    valid = set-AllValid bound key v (now s.world) s.l1 a.valid;
    cached = λ k e r. elim (set-reads bound key v (now s.world) s.l1 k e a.valid r) [
      | inl (same, value) ↦ rw (same, value) h
      | inr old ↦ a.cached k e old
    ];
    written = a.written;
    held = a.held;
    results = a.results;
  }

  looked-Known :
      (l : List (Bytes × Bytes)) (key : Bytes) (start : ℕ) (e : Option Entry) (x : Entry)
      (v : Bytes)
      → InHand o g settings d l (looked key start e)
      → e ≡ some x
      → x.value ≡ v
      → Known l key v
  looked-Known l key start none x v h same value = absurd (cc)
  looked-Known l key start (some y) x v h same value = rw (← value, ← some-injective _ _ same) h

  after_look-InHand :
      (l : List (Bytes × Bytes)) (key : Bytes) (start : ℕ) (r : Option Bytes)
      → ((v : Bytes) → r ≡ some v → Known l key v)
      → InHand o g settings d l (after_look o g settings key start r)
  unfolding after_look
  after_look-InHand l key start none f = tt
  after_look-InHand l key start (some v) f = f v refl

  pub end_look-Keeps :
      (bound : ℕ) (key : Bytes) (start : ℕ) (e : Option Entry) (s : Shared o g settings)
      → AllKnown o g settings d bound s
      → InHand o g settings d s.origins (looked key start e)
      → Keeps bound s
          (end_of_look o g settings e key s)
          (after_look o g settings key start (look_value o g settings e key s))
  unfolding end_of_look look_value
  end_look-Keeps bound key start e s a h = record {
    all = record {
      valid = finish_get-AllValid bound e key (now s.world) s.l1 s.metrics a.valid;
      cached = λ k x r. a.cached k x (finish_get-reads e key (now s.world) s.l1 s.metrics k x r);
      written = a.written;
      held = a.held;
      results = a.results;
    };
    hand = after_look-InHand s.origins key start _ (λ v r.
        let (x, same, value) = finish_get-value e key (now s.world) s.l1 s.metrics v r in
        looked-Known s.origins key start e x v h same value);
    grows = λ k v i. i;
  }

  l2_get-found :
      (key v : Bytes) (m : Metrics) (w : o.World)
      → (l2_get o key m w).value ≡ some v
      → (redis_get key w).0 ≡ found v
  unfolding l2_get
  l2_get-found key v m w h = ground arith

  l2_get-world :
      (key : Bytes) (m : Metrics) (w : o.World) → (l2_get o key m w).world ≡ (redis_get key w).1
  unfolding l2_get
  l2_get-world key m w = ground arith

  after_redis-InHand :
      (l : List (Bytes × Bytes)) (key : Bytes) (start : ℕ) (r : Option Bytes)
      → ((v : Bytes) → r ≡ some v → Known l key v)
      → InHand o g settings d l (after_redis o g settings key start r)
  unfolding after_redis
  after_redis-InHand l key start none f = tt
  after_redis-InHand l key start (some v) f = f v refl

  pub ask_redis-Keeps :
      (bound : ℕ) (key : Bytes) (start : ℕ) (s : Shared o g settings)
      → AllKnown o g settings d bound s
      → Keeps bound s
          (call_redis o g settings key s)
          (after_redis o g settings key start (l2_get o key s.metrics s.world).value)
  unfolding call_redis
  ask_redis-Keeps bound key start s a = record {
    all = record {
      valid = a.valid;
      cached = a.cached;
      written = a.written;
      held = λ k v h.
          a.held k v (d.held_of_get key k v s.world (rw (← l2_get-world key s.metrics s.world) h));
      results = a.results;
    };
    hand =
        after_redis-InHand s.origins key start _
          (λ v r. a.held key v (d.get_held key v s.world (l2_get-found key v s.metrics s.world r)));
    grows = λ k v i. i;
  }

  -- A change of the origins that adds one keeps all known.
  pub AllKnown-cons :
      (bound : ℕ) (x : Bytes × Bytes) (s : Shared o g settings)
      → AllKnown o g settings d bound s
      → AllKnown o g settings d bound (record s { origins = x ∷ s.origins })
  AllKnown-cons bound x s a =
      let up = Grows-cons x s.origins in
      record {
        valid = a.valid;
        cached = λ k e r. up k e.value (a.cached k e r);
        written = λ k v i. up k v (a.written k v i);
        held = λ k v h. up k v (a.held k v h);
        results = λ n v r. up (key_of n) v (a.results n v r);
      }

  after_fetch-Keeps :
      (bound : ℕ) (key : Bytes) (start : ℕ) (n : Option Ticket) (r : Option Bytes)
      (s : Shared o g settings)
      → AllKnown o g settings d bound s
      → OfKey o g settings d key n
      → Keeps bound s (take_fetched o g settings key r s) (after_fetch o g settings key start n r)
  unfolding take_fetched after_fetch
  after_fetch-Keeps bound key start n none s a t = record {
    all = record {
      valid = a.valid;
      cached = a.cached;
      written = a.written;
      held = a.held;
      results = a.results;
    };
    hand = (t, tt);
    grows = λ k v i. i;
  }
  after_fetch-Keeps bound key start n (some v) s a t =
      let b = AllKnown-cons bound (key, v) s a in
      record {
        all = record {
          valid = b.valid;
          cached = b.cached;
          written = λ k w i. elim (InList-append (k, w) (key, v) s.writes i) [
            | inl old ↦ b.written k w old
            | inr same ↦ (zero, ap some same)
          ];
          held = b.held;
          results = b.results;
        };
        hand = (t, (zero, refl));
        grows = Grows-cons (key, v) s.origins;
      }

  pub ask_origin-Keeps :
      (bound : ℕ) (key : Bytes) (start : ℕ) (n : Option Ticket) (s : Shared o g settings)
      → AllKnown o g settings d bound s
      → OfKey o g settings d key n
      → Keeps bound s
          (call_origin o g settings key s)
          (after_fetch o g settings key start n (fetch key s.world).0)
  unfolding call_origin
  ask_origin-Keeps bound key start n s a t =
      let k =
        after_fetch-Keeps bound key start n (fetch key s.world).0 _
          (record {
            valid = a.valid;
            cached = a.cached;
            written = a.written;
            held = λ k v h. a.held k v (d.held_of_fetch key k v s.world h);
            results = a.results;
          })
          t in
      record { all = k.all; hand = k.hand; grows = k.grows }
