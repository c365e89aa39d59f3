-- ===== src/Manager/Background.antt =====
-- The background write to Redis of an origin fetch, against an `Invalidate` that comes first.
use cache_server_go.Base.{◌≡◌, refl, ap, ◌∙◌, none, some, List, ◌∷◌, Bytes}
use cache_server_go.L1.Cache
use cache_server_go.L1.Expiry.{get-delete}
use cache_server_go.Metrics.{Metrics, add_l1_miss, add_l2_hit, record_latency}
use cache_server_go.L2.{Outside, found, l2_get}
use cache_server_go.Manager.Store.{
  Settings, State, Fetched, get, invalidate, back_populate, after_l1, after_l2, record_since,
  l1_set,
}

module _ (o : Outside) (settings : Settings) where
  open o use {World, now, redis_get, redis_set}

  l2_get_of_found :
      (key v : Bytes) (m : Metrics) (w : World)
      → (redis_get key w).0 ≡ found v
      → l2_get o key m w
        ≡ record { value = some v; metrics = add_l2_hit m; world = (redis_get key w).1 }
  unfolding l2_get
  l2_get_of_found key v m w h = rw (h, l2_get) refl

  -- What `Get` does after its miss in L1, when Redis holds the key: it fills L1.
  abbrev filled : Bytes → Bytes → State o settings → Fetched o settings
  filled key v s = record {
    value = some v;
    state =
        l1_set o settings key v
          (record s { metrics = add_l2_hit s.metrics; world = (redis_get key s.world).1 });
  }

  after_l1_of_found :
      (key v : Bytes) (s : State o settings)
      → (redis_get key s.world).0 ≡ found v
      → after_l1 o settings key none s ≡ filled key v s
  unfolding after_l1 after_l2
  after_l1_of_found key v s h =
      ap (λ r. after_l2 o settings key r.value (record s { metrics = r.metrics; world = r.world }))
        (l2_get_of_found key v s.metrics s.world h)

  get_of_found :
      (key v : Bytes) (s : State o settings)
      → Cache.get key (now s.world) s.l1 s.metrics
        ≡ record { cache = s.l1; metrics = add_l1_miss s.metrics; value = none }
      → (redis_get key s.world).0 ≡ found v
      → get o settings key s
        ≡ record_since o settings
            (now s.world)
            (filled key v (record s { metrics = add_l1_miss s.metrics }))
  unfolding get
  get_of_found key v s miss hit =
      ap
        (λ a.
          record_since o settings (now s.world)
            (after_l1 o settings key a.value (record s { l1 = a.cache; metrics = a.metrics })))
        miss
      ∙ ap (record_since o settings (now s.world))
          (after_l1_of_found key v (record s { metrics = add_l1_miss s.metrics }) hit)

  back_populate_cons :
      (key val : Bytes) (rest : List (Bytes × Bytes)) (s : State o settings)
      → s.pending ≡ (key, val) ∷ rest
      → back_populate o settings s
        ≡ record s { pending = rest; world = (redis_set key val settings.l2_ttl s.world).1 }
  unfolding back_populate
  back_populate_cons key val rest s p = rw (p, back_populate)

  -- What a `Get` did that returned `v` without asking the origin: it has the value, its only call
  -- outside was the `GET` to Redis, and no call of the origin and no write to Redis was added.
  pub record FromRedis (key v : Bytes) (s : State o settings) (r : Fetched o settings)
      : Type 0 where
    pub value : r.value ≡ some v
    pub world : r.state.world ≡ (redis_get key s.world).1
    pub pending : r.state.pending ≡ s.pending
    pub origin_calls : r.state.metrics.origin_calls ≡ s.metrics.origin_calls

  get_of_found-FromRedis :
      (key v : Bytes) (s : State o settings)
      → Cache.get key (now s.world) s.l1 s.metrics
        ≡ record { cache = s.l1; metrics = add_l1_miss s.metrics; value = none }
      → (redis_get key s.world).0 ≡ found v
      → FromRedis key v s (get o settings key s)
  unfolding record_since l1_set record_latency add_l2_hit add_l1_miss
  get_of_found-FromRedis key v s miss hit =
      rw (get_of_found key v s miss hit)
        (record { value = refl; world = refl; pending = refl; origin_calls = refl })

  -- If an origin fetch of a value is still to be written to Redis when its key is invalidated, the
  -- write comes after the deletion: where Redis takes the write, the next `Get` returns the
  -- invalidated value. It does not ask the origin: its only call outside is the `GET` to Redis, the
  -- count of origin calls stays, and so do the writes still to be made.
  pub get-back_populate-invalidate :
      (key old : Bytes) (rest : List (Bytes × Bytes)) (s : State o settings)
      → s.pending ≡ (key, old) ∷ rest
      → ((w : World) → (redis_get key (redis_set key old settings.l2_ttl w).1).0 ≡ found old)
      → let s' = back_populate o settings (invalidate o settings key s).1 in
        FromRedis key old s' (get o settings key s')
  unfolding invalidate
  get-back_populate-invalidate key old rest s p taken =
      let s' = (invalidate o settings key s).1 in
      rw (back_populate_cons key old rest s' p) (
        get_of_found-FromRedis key old _
          (get-delete key key (now (redis_set key old settings.l2_ttl s'.world).1) s.l1 s.metrics).0
          (taken s'.world))
