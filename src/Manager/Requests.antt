-- ===== src/Manager/Requests.antt =====
-- What a request to the manager gives and counts, on every path.
use cache_server_go.Base.{
  ℕ, ◌+◌, ◌≤◌, ◌≡◌, refl, ap, ◌∙◌, Bool, true, Option, none, some, Bytes, arith, ltb, if◌then◌else◌,
  add64,
}
use cache_server_go.Metrics.{
  Metrics, add_l1_hit, add_l1_miss, add_l2_hit, add_l2_miss, add_origin_call, add_origin_error,
  add_coalesced, record_latency,
}
use cache_server_go.L1.Cache
use cache_server_go.L1.Cache.{L1Cache, shard_of, Answer}
use cache_server_go.L1.Evict.{IsValid}
use cache_server_go.L1.Expiry as L1
use cache_server_go.L2.{Outside, Flight, lead, follow, l2_get}
use cache_server_go.Manager.Store.{
  Settings, State, Fetched, l1_set, fetched, do_origin_fetch, count_shared, in_flight,
  fetch_from_origin, after_l2, after_l1, record_since, get, set,
}

module _ (o : Outside) (settings : Settings) where
  open o use {World, now, redis_get, redis_set, fetch, flight}

  -- A `Get` that L1 answers leaves the world and the background writes alone.
  get_of_hit :
      (key v : Bytes) (s : State o settings)
      → (Cache.get key (now s.world) s.l1 s.metrics).value ≡ some v
      → let r = get o settings key s in
        (r.value ≡ some v) × ((r.state).world ≡ s.world) × ((r.state).pending ≡ s.pending)
  unfolding get after_l1 record_since
  get_of_hit key v s h = rw (h, get) (refl, refl, refl)

  -- After a `Set` on a valid shard, whether or not Redis took the write, a `Get` that reads the
  -- clock within the TTL returns the value and leaves Redis, the origin and the background writes
  -- alone.
  pub get-set_through :
      (key value : Bytes) (s : State o settings)
      → IsValid (shard_of key s.l1)
      → now (set o settings key value s).1.world ≤ now s.world + s.l1.ttl
      → let s' = (set o settings key value s).1 in
        let r = get o settings key s' in
        (r.value ≡ some value) × ((r.state).world ≡ s'.world) × ((r.state).pending ≡ s.pending)
  unfolding set l1_set
  get-set_through key value s v h =
      get_of_hit key value (set o settings key value s).1
        (fresh_value (L1.get-set key value (now s.world) later s.l1 s.metrics v).0)
    where
      later : ℕ
      later = now (set o settings key value s).1.world

      fresh_value :
          (Cache.get key later (Cache.set key value (now s.world) s.l1) s.metrics).value
            ≡ (if ltb (now s.world + s.l1.ttl) later then none else some value)
          → (Cache.get key later (Cache.set key value (now s.world) s.l1) s.metrics).value
            ≡ some value
      fresh_value e = ground arith

  -- The requests counted stay the same in every step of a `Get` but its last.
  l2_get-total :
      (key : Bytes) (m : Metrics) (w : World)
      → (l2_get o key m w).metrics.total_requests ≡ m.total_requests
  unfolding l2_get add_l2_hit add_l2_miss add_origin_error
  l2_get-total key m w = ground arith

  do_origin_fetch-total :
      (key : Bytes) (s : State o settings)
      → (do_origin_fetch o settings key s).state.metrics.total_requests ≡ s.metrics.total_requests
  unfolding do_origin_fetch fetched l1_set add_origin_call add_origin_error
  do_origin_fetch-total key s = ground arith

  count_shared-total :
      (b : Bool) (r : Fetched o settings)
      → (count_shared o settings b r).state.metrics.total_requests
        ≡ (r.state).metrics.total_requests
  unfolding count_shared add_coalesced
  count_shared-total b r = ground arith

  in_flight-total :
      (f : Flight) (key : Bytes) (s : State o settings)
      → (in_flight o settings f key s).state.metrics.total_requests ≡ s.metrics.total_requests
  unfolding in_flight
  in_flight-total (lead b) key s =
      count_shared-total b (do_origin_fetch o settings key s) ∙ do_origin_fetch-total key s
  in_flight-total (follow r) key s = count_shared-total true (record { value = r; state = s })

  fetch_from_origin-total :
      (key : Bytes) (s : State o settings)
      → (fetch_from_origin o settings key s).state.metrics.total_requests ≡ s.metrics.total_requests
  unfolding fetch_from_origin
  fetch_from_origin-total key s =
      ground (arith, in_flight-total (flight key s.world) key s, do_origin_fetch-total key s)

  after_l1-total :
      (key : Bytes) (v : Option Bytes) (s : State o settings)
      → (after_l1 o settings key v s).state.metrics.total_requests ≡ s.metrics.total_requests
  unfolding after_l1 after_l2 l1_set
  after_l1-total key (some v) s = refl
  after_l1-total key none s =
      let r = l2_get o key s.metrics s.world in
      ground (
        arith,
        l2_get-total key s.metrics s.world,
        fetch_from_origin-total key (record s { metrics = r.metrics; world = r.world }),
      )

  l1_get-total :
      (key : Bytes) (t : ℕ) (c : L1Cache) (m : Metrics)
      → (Cache.get key t c m).metrics.total_requests ≡ m.total_requests
  unfolding Cache.get add_l1_hit add_l1_miss
  l1_get-total key t c m = ground arith

  -- Every `Get`, whatever path it takes and whether or not it fails, counts one request.
  pub get-total_requests :
      (key : Bytes) (s : State o settings)
      → (get o settings key s).state.metrics.total_requests ≡ add64 s.metrics.total_requests 1
  unfolding get record_since record_latency
  get-total_requests key s =
      let a = Cache.get key (now s.world) s.l1 s.metrics in
      ap (λ n. add64 n 1)
        (after_l1-total key a.value (record s { l1 = a.cache; metrics = a.metrics })
          ∙ l1_get-total key (now s.world) s.l1 s.metrics)
