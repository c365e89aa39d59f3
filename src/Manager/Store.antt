-- ===== src/Manager/Store.antt =====
-- `Manager` of internal/cache/manager.go. Log lines are left out, and an error is `none` or `false`.
use cache_server_go.Base.{
  ℕ, Bool, true, false, Option, none, some, List, [], ◌∷◌, ◌++◌, Bytes, if◌then◌else◌, sub64,
}
use cache_server_go.Metrics.{
  Metrics, add_origin_call, add_origin_error, add_coalesced, record_latency,
}
use cache_server_go.L1.Cache
use cache_server_go.L1.Cache.{L1Cache, Answer}
use cache_server_go.L2.{Outside, Flight, lead, follow, l2_get, l2_set, l2_delete}

-- What the code fixes at the start: the TTL of Redis and whether singleflight is on.
pub record Settings : Type 0 where
  pub l2_ttl : ℕ
  pub use_sf : Bool

module _ (o : Outside) (settings : Settings) where
  open o use {World, now, fetch, flight}

  -- The process and the world. `pending` are the writes to Redis that background goroutines have
  -- still to make.
  pub record State : Type 0 where
    pub l1 : L1Cache
    pub metrics : Metrics
    pub pending : List (Bytes × Bytes)
    pub world : World

  pub record Fetched : Type 0 where
    pub value : Option Bytes
    pub state : State

  -- `m.l1.Set` at the time of the world.
  unfoldable pub l1_set : Bytes → Bytes → State → State
  l1_set key value s = record s { l1 = Cache.set key value (now s.world) s.l1 }

  -- What `doOriginFetch` does with the origin's answer.
  unfoldable pub fetched : Bytes → Option Bytes → State → Fetched
  unfolding l1_set
  fetched key none s = record {
    value = none;
    state = record s { metrics = add_origin_error s.metrics };
  }
  fetched key (some val) s = record {
    value = some val;
    state = l1_set key val (record s { pending = s.pending ++ ((key, val) ∷ []) });
  }

  -- `doOriginFetch`
  unfoldable pub do_origin_fetch : Bytes → State → Fetched
  unfolding fetched
  do_origin_fetch key s =
      let (val, w) = fetch key s.world in
      fetched key val (record s { metrics = add_origin_call s.metrics; world = w })

  -- `if shared { metrics.Global.CoalescedCalls.Add(1) }`
  unfoldable pub count_shared : Bool → Fetched → Fetched
  count_shared true r = record r {
    state = record (r.state) { metrics = add_coalesced (r.state).metrics };
  }
  count_shared false r = r

  unfoldable pub in_flight : Flight → Bytes → State → Fetched
  unfolding count_shared
  in_flight (lead shared) key s = count_shared shared (do_origin_fetch key s)
  in_flight (follow result) key s = count_shared true (record { value = result; state = s })

  -- `fetchFromOrigin`
  unfoldable pub fetch_from_origin : Bytes → State → Fetched
  unfolding in_flight
  fetch_from_origin key s =
      if settings.use_sf then in_flight (flight key s.world) key s else do_origin_fetch key s

  -- `Get` after its miss in L1, for what Redis gave.
  unfoldable pub after_l2 : Bytes → Option Bytes → State → Fetched
  after_l2 key (some val) s = record { value = some val; state = l1_set key val s }
  after_l2 key none s = fetch_from_origin key s

  -- `Get` for what L1 gave.
  unfoldable pub after_l1 : Bytes → Option Bytes → State → Fetched
  unfolding after_l2
  after_l1 key (some val) s = record { value = some val; state = s }
  after_l1 key none s =
      let r = l2_get o key s.metrics s.world in
      after_l2 key r.value (record s { metrics = r.metrics; world = r.world })

  -- The deferred `RecordLatency(time.Since(start))`.
  unfoldable pub record_since : ℕ → Fetched → Fetched
  record_since start r = record r {
    state = record (r.state) {
      metrics = record_latency (sub64 (now (r.state).world) start) (r.state).metrics;
    };
  }

  -- `Get`
  unfoldable pub get : Bytes → State → Fetched
  unfolding after_l1 record_since
  get key s =
      let a = Cache.get key (now s.world) s.l1 s.metrics in
      record_since (now s.world)
        (after_l1 key a.value (record s { l1 = a.cache; metrics = a.metrics }))

  -- `Set`; the result says whether Redis took the write.
  unfoldable pub set : Bytes → Bytes → State → Bool × State
  set key value s =
      let s' = l1_set key value s in
      let (done, w) = l2_set o key value settings.l2_ttl s'.world in (done, record s' { world = w })

  -- `Invalidate`
  unfoldable pub invalidate : Bytes → State → Bool × State
  invalidate key s =
      let (done, w) = l2_delete o key s.world in
      (done, record s { l1 = Cache.delete key s.l1; world = w })

  -- A background goroutine makes its write; a failure is only logged.
  unfoldable pub back_populate : State → State
  back_populate s = elim s.pending [
    | [] ↦ s
    | (key, val) ∷ rest ↦ record s {
      pending = rest;
      world = (l2_set o key val settings.l2_ttl s.world).1;
    }
  ]
