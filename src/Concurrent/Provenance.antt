-- ===== src/Concurrent/Provenance.antt =====
-- Every move of a goroutine keeps all known.
use cache_server_go.Base.{ℕ, zero, ◌≡◌, refl, sym, ◌∙◌, inl, inr, Option, none, some, List, Bytes}
use mathlib.Core.Option.{some-injective}
use cache_server_go.L1.Shard.{Entry, read}
use cache_server_go.L1.Cache.{L1Cache, shard_of, new_l1, per_shard}
use cache_server_go.L1.Valid.{delete-AllValid}
use cache_server_go.L1.Cache
use cache_server_go.L2.{Outside}
use cache_server_go.Manager.Store.{Settings}
use cache_server_go.Concurrent.Group.{Group, GroupLaws, Role, leads, waits}
use cache_server_go.Concurrent.Moves.{
  Shared, Pc, Move, looked, after_join, store_l1, finish_call, start_get, look, end_look, ask_redis,
  fill, go_direct, go_join, ask_origin, store, return, end_call, wake, end_get, start_set, set_l1,
  set_l2, start_delete, delete_l1, delete_l2,
}
use cache_server_go.Concurrent.System.{Redis}
use cache_server_go.Concurrent.Reads.{delete-reads}
use cache_server_go.Concurrent.Known.{Known, KnownAnswer, Grows-cons, InHand, AllKnown}
use cache_server_go.Concurrent.Keeps.{
  Keeps, store_l1-AllKnown, end_look-Keeps, ask_redis-Keeps, ask_origin-Keeps, AllKnown-cons,
}

module _ (o : Outside) (g : Group) (laws : GroupLaws g) (settings : Settings) (d : Redis o) where
  open o use {now, redis_set, redis_del}
  open g use {Ticket, Table, key_of, result, join, is_open}
  open d use {Holds, Drift}

  -- The entry that was read is known.
  read-InHand :
      (bound : ℕ) (key : Bytes) (start : ℕ) (e : Option Entry) (s : Shared o g settings)
      → AllKnown o g settings d bound s
      → read key (shard_of key s.l1) ≡ e
      → InHand o g settings d s.origins (looked key start e)
  read-InHand bound key start none s a h = tt
  read-InHand bound key start (some e) s a h = a.cached key e h

  join-InHand :
      (l : List (Bytes × Bytes)) (key : Bytes) (start : ℕ) (r : Role Ticket) (t : Table)
      → (join key t).0 ≡ r
      → InHand o g settings d l (after_join o g settings key start r)
  unfolding after_join
  join-InHand l key start (leads n) t h = (laws.leads_new key n t h).0
  join-InHand l key start (waits n) t h = (laws.waits_open key n t h).0

  -- A result of the group was known when its call ended.
  finish-results :
      (bound : ℕ) (key : Bytes) (n m : Ticket) (r : Option Bytes) (v : Bytes)
      (s : Shared o g settings)
      → AllKnown o g settings d bound s
      → key_of n ≡ key
      → KnownAnswer s.origins key r
      → result m (g.finish n r s.table) ≡ some (some v)
      → Known s.origins (key_of m) v
  finish-results bound key n m r v s a own h e = elim (laws.result_of_finish m n r s.table) [
    | inl (same, given) ↦ rw (same, own) (known r h (some-injective _ _ (sym given ∙ e)))
    | inr kept ↦ a.results m v (sym kept ∙ e)
  ]
    where
      known : (r : Option Bytes) → KnownAnswer s.origins key r → r ≡ some v → Known s.origins key v
      known none h e = absurd (cc)
      known (some w) h e = rw (← some-injective _ _ e) h

  pub held_of_set :
      (bound : ℕ) (key v k w : Bytes) (s : Shared o g settings)
      → AllKnown o g settings d bound s
      → Known s.origins key v
      → Holds (redis_set key v settings.l2_ttl s.world).1 k w
      → Known s.origins k w
  held_of_set bound key v k w s a h x = elim (d.held_of_set key v k w settings.l2_ttl s.world x) [
    | inl old ↦ a.held k w old
    | inr (same, value) ↦ rw (same, value) h
  ]

  wake-InHand :
      (bound : ℕ) (key : Bytes) (n : Ticket) (r : Option Bytes) (s : Shared o g settings)
      → AllKnown o g settings d bound s
      → key_of n ≡ key
      → result n s.table ≡ some r
      → KnownAnswer s.origins key r
  wake-InHand bound key n none s a own e = tt
  wake-InHand bound key n (some v) s a own e = rw (← own) (a.results n v e)

  pub Move-Keeps :
      (bound : ℕ) {s t : Shared o g settings} {p q : Pc o g settings}
      → Move o g settings s p t q
      → AllKnown o g settings d bound s
      → InHand o g settings d s.origins p
      → Keeps o g settings d bound s t q
  unfolding finish_call store_l1 Cache.delete
  Move-Keeps bound {s} (start_get key) a h = record { all = a; hand = tt; grows = λ k v i. i }
  Move-Keeps bound {s} (look key start) a h = record {
    all = a;
    hand = read-InHand bound key start _ s a refl;
    grows = λ k v i. i;
  }
  Move-Keeps bound {s} (end_look key start e) a h =
      end_look-Keeps o g settings d bound key start e s a h
  Move-Keeps bound {s} (ask_redis key start) a h =
      ask_redis-Keeps o g settings d bound key start s a
  Move-Keeps bound {s} (fill key start v) a h = record {
    all = store_l1-AllKnown o g settings d bound key v s a h;
    hand = h;
    grows = λ k v i. i;
  }
  Move-Keeps bound {s} (go_direct key start sf) a h = record {
    all = a;
    hand = tt;
    grows = λ k v i. i;
  }
  Move-Keeps bound {s} (go_join key start sf) a h = record {
    all = record {
      valid = a.valid;
      cached = a.cached;
      written = a.written;
      held = a.held;
      results = λ n v r. a.results n v (sym (laws.result_of_join key n s.table) ∙ r);
    };
    hand = join-InHand s.origins key start (join key s.table).0 s.table refl;
    grows = λ k v i. i;
  }
  Move-Keeps bound {s} (ask_origin key start n) a h =
      ask_origin-Keeps o g settings d bound key start n s a h
  Move-Keeps bound {s} (store key start n v) a h = record {
    all = store_l1-AllKnown o g settings d bound key v s a h.1;
    hand = h;
    grows = λ k v i. i;
  }
  Move-Keeps bound {s} (return key start r) a h = record { all = a; hand = h.1; grows = λ k v i. i }
  Move-Keeps bound {s} (end_call key start n r) a h = record {
    all = record {
      valid = a.valid;
      cached = a.cached;
      written = a.written;
      held = a.held;
      results = λ m v e. finish-results bound key n m r v s a h.0 h.1 e;
    };
    hand = h.1;
    grows = λ k v i. i;
  }
  Move-Keeps bound {s} (wake key start n r e) a h = record {
    all = record {
      valid = a.valid;
      cached = a.cached;
      written = a.written;
      held = a.held;
      results = a.results;
    };
    hand = wake-InHand bound key n r s a h e;
    grows = λ k v i. i;
  }
  Move-Keeps bound {s} (end_get key start r) a h = record {
    all = record {
      valid = a.valid;
      cached = a.cached;
      written = a.written;
      held = a.held;
      results = a.results;
    };
    hand = h;
    grows = λ k v i. i;
  }
  Move-Keeps bound {s} (start_set key v) a h = record {
    all = AllKnown-cons o g settings d bound (key, v) s a;
    hand = (zero, refl);
    grows = Grows-cons (key, v) s.origins;
  }
  Move-Keeps bound {s} (set_l1 key v) a h = record {
    all = store_l1-AllKnown o g settings d bound key v s a h;
    hand = h;
    grows = λ k v i. i;
  }
  Move-Keeps bound {s} (set_l2 key v) a h = record {
    all = record {
      valid = a.valid;
      cached = a.cached;
      written = a.written;
      held = λ k w x. held_of_set bound key v k w s a h x;
      results = a.results;
    };
    hand = tt;
    grows = λ k v i. i;
  }
  Move-Keeps bound {s} (start_delete key) a h = record { all = a; hand = tt; grows = λ k v i. i }
  Move-Keeps bound {s} (delete_l1 key) a h = record {
    all = record {
      valid = delete-AllValid bound key s.l1 a.valid;
      cached = λ k e r. a.cached k e (delete-reads key s.l1 k e r);
      written = a.written;
      held = a.held;
      results = a.results;
    };
    hand = tt;
    grows = λ k v i. i;
  }
  Move-Keeps bound {s} (delete_l2 key) a h = record {
    all = record {
      valid = a.valid;
      cached = a.cached;
      written = a.written;
      held = λ k v x. a.held k v (d.held_of_del key k v s.world x);
      results = a.results;
    };
    hand = tt;
    grows = λ k v i. i;
  }
