-- ===== src/Concurrent/Rest.antt =====
-- One goroutine in `Get` by itself, against Manager/Store.antt: wherever it stands, what `Get` has still
-- to do is a function of the state, and no move of the goroutine changes what that gives.
use cache_server_go.Base.{ℕ, ◌≡◌, refl, ap, sym, false, Option, none, some, Bytes, if◌then◌else◌}
use cache_server_go.L1.Shard.{read}
use cache_server_go.L1.Cache.{shard_of}
use cache_server_go.L2.{Outside, l2_get}
use cache_server_go.Manager.Store as Store
use cache_server_go.Manager.Store.{Settings, State, Fetched}
use cache_server_go.Concurrent.Group.{Group}
use cache_server_go.Concurrent.Moves.{
  Shared, Pc, Move, getting, looked, missed, l2_hit, l2_missed, leading, fetched, ran, answering,
  answered, after_look, after_redis, take_fetched, after_fetch, call_origin, store_l1, look_value,
  end_of_look, call_redis, start_get, look, end_look, ask_redis, fill, go_direct, go_join,
  ask_origin, store, return, end_call, wake, end_get, start_set, set_l1, set_l2, start_delete,
  delete_l1, delete_l2,
}

module _ (o : Outside) (g : Group) (settings : Settings) where
  open o use {now, fetch}

  -- What the sequential model keeps of the shared state.
  abbrev pub view : Shared o g settings → State o settings
  view m = record { l1 = m.l1; metrics = m.metrics; pending = m.writes; world = m.world }

  -- A goroutine in a `Get` of the key, with no call of the group.
  abbrev pub IsGet : Bytes → Pc o g settings → Type 0
  IsGet k (getting key start) = key ≡ k
  IsGet k (looked key start e) = key ≡ k
  IsGet k (missed key start) = key ≡ k
  IsGet k (l2_hit key start v) = key ≡ k
  IsGet k (l2_missed key start) = key ≡ k
  IsGet k (leading key start none) = key ≡ k
  IsGet k (leading key start (some n)) = ⊥
  IsGet k (fetched key start none v) = key ≡ k
  IsGet k (fetched key start (some n) v) = ⊥
  IsGet k (ran key start none r) = key ≡ k
  IsGet k (ran key start (some n) r) = ⊥
  IsGet k (answering key start r) = key ≡ k
  IsGet k (answered key r) = key ≡ k
  IsGet k _ = ⊥

  abbrev stored : Bytes → Bytes → Shared o g settings → Fetched o settings
  stored key v m = record { value = some v; state = view (store_l1 o g settings key v m) }

  -- What `Get` gives once the rest of it has run.
  abbrev pub rest : Shared o g settings → Pc o g settings → Fetched o settings
  rest m (getting key start) =
      let e = read key (shard_of key m.l1) in
      Store.record_since o settings start (
        Store.after_l1 o settings key (look_value o g settings e key m)
          (view (end_of_look o g settings e key m)))
  rest m (looked key start e) = Store.record_since o settings start (
      Store.after_l1 o settings key (look_value o g settings e key m)
        (view (end_of_look o g settings e key m)))
  rest m (missed key start) =
      Store.record_since o settings start (Store.after_l1 o settings key none (view m))
  rest m (l2_hit key start v) = Store.record_since o settings start (stored key v m)
  rest m (l2_missed key start) =
      Store.record_since o settings start (Store.fetch_from_origin o settings key (view m))
  rest m (leading key start n) =
      Store.record_since o settings start (Store.do_origin_fetch o settings key (view m))
  rest m (fetched key start n v) = Store.record_since o settings start (stored key v m)
  rest m (ran key start n r) =
      Store.record_since o settings start (record { value = r; state = view m })
  rest m (answering key start r) =
      Store.record_since o settings start (record { value = r; state = view m })
  rest m (answered key r) = record { value = r; state = view m }
  rest m _ = record { value = none; state = view m }

  -- A move that keeps what the rest of `Get` gives.
  pub record Keeps (k : Bytes) (s : Shared o g settings) (p : Pc o g settings)
      (t : Shared o g settings) (q : Pc o g settings) : Type 0 where
    pub gets : IsGet k q
    pub same : rest t q ≡ rest s p

  after_look-Keeps :
      (k key : Bytes) (start : ℕ) (r : Option Bytes) (m : Shared o g settings)
      → key ≡ k
      → IsGet k (after_look o g settings key start r)
        × (rest m (after_look o g settings key start r)
            ≡ Store.record_since o settings start (Store.after_l1 o settings key r (view m)))
  unfolding after_look Store.after_l1
  after_look-Keeps k key start none m h = (h, refl)
  after_look-Keeps k key start (some v) m h = (h, refl)

  after_redis-Keeps :
      (k key : Bytes) (start : ℕ) (r : Option Bytes) (m : Shared o g settings)
      → key ≡ k
      → IsGet k (after_redis o g settings key start r)
        × (rest m (after_redis o g settings key start r)
            ≡ Store.record_since o settings start (Store.after_l2 o settings key r (view m)))
  unfolding after_redis Store.after_l2 Store.l1_set store_l1
  after_redis-Keeps k key start none m h = (h, refl)
  after_redis-Keeps k key start (some v) m h = (h, refl)

  after_fetch-Keeps :
      (k key : Bytes) (start : ℕ) (r : Option Bytes) (m : Shared o g settings)
      → key ≡ k
      → IsGet k (after_fetch o g settings key start none r)
        × (rest (take_fetched o g settings key r m) (after_fetch o g settings key start none r)
            ≡ Store.record_since o settings start (Store.fetched o settings key r (view m)))
  unfolding take_fetched after_fetch Store.fetched Store.l1_set store_l1
  after_fetch-Keeps k key start none m h = (h, refl)
  after_fetch-Keeps k key start (some v) m h = (h, refl)

  direct :
      (key : Bytes) (m : Shared o g settings)
      → settings.use_sf ≡ false
      → Store.do_origin_fetch o settings key (view m)
        ≡ Store.fetch_from_origin o settings key (view m)
  unfolding Store.fetch_from_origin
  direct key m off =
      ap
        (λ b.
          if b
          then Store.in_flight o settings (o.flight key m.world) key (view m)
          else Store.do_origin_fetch o settings key (view m))
        (sym off)

  pub Move-Keeps_rest :
      {s t : Shared o g settings} {p q : Pc o g settings} (k : Bytes)
      → Move o g settings s p t q
      → settings.use_sf ≡ false
      → IsGet k p
      → Keeps k s p t q
  unfolding call_redis call_origin Store.after_l1 Store.do_origin_fetch Store.record_since
  Move-Keeps_rest k (look key start) off h = record { gets = h; same = refl }
  Move-Keeps_rest {s} k (end_look key start e) off h =
      let (gets, same) =
        after_look-Keeps k key start (look_value o g settings e key s)
          (end_of_look o g settings e key s) h in
      record { gets = gets; same = same }
  Move-Keeps_rest {s} k (ask_redis key start) off h =
      let (gets, same) =
        after_redis-Keeps k key start (l2_get o key s.metrics s.world).value
          (call_redis o g settings key s) h in
      record { gets = gets; same = same }
  Move-Keeps_rest k (fill key start v) off h = record { gets = h; same = refl }
  Move-Keeps_rest {s} k (go_direct key start direct_on) off h = record {
    gets = h;
    same = ap (Store.record_since o settings start) (direct key s off);
  }
  Move-Keeps_rest k (go_join key start on) off h = absurd (cc (on, off))
  Move-Keeps_rest {s} k (ask_origin key start none) off h =
      let (gets, same) = after_fetch-Keeps k key start (fetch key s.world).0 _ h in
      record { gets = gets; same = same }
  Move-Keeps_rest k (ask_origin key start (some n)) off h = absurd h
  Move-Keeps_rest k (store key start none v) off h = record { gets = h; same = refl }
  Move-Keeps_rest k (store key start (some n) v) off h = absurd h
  Move-Keeps_rest k (return key start r) off h = record { gets = h; same = refl }
  Move-Keeps_rest k (end_get key start r) off h = record { gets = h; same = refl }
  Move-Keeps_rest k (end_call key start n r) off h = absurd h
  Move-Keeps_rest k (wake key start n r e) off h = absurd h
  Move-Keeps_rest k (start_get key) off h = absurd h
  Move-Keeps_rest k (start_set key v) off h = absurd h
  Move-Keeps_rest k (set_l1 key v) off h = absurd h
  Move-Keeps_rest k (set_l2 key v) off h = absurd h
  Move-Keeps_rest k (start_delete key) off h = absurd h
  Move-Keeps_rest k (delete_l1 key) off h = absurd h
  Move-Keeps_rest k (delete_l2 key) off h = absurd h
