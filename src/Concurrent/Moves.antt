-- ===== src/Concurrent/Moves.antt =====
-- One goroutine that runs `Get`, `Set` or `Invalidate` of internal/cache/manager.go, a shared
-- access at a time. A step is what runs under one lock, one call of Redis, of the origin or
-- of the group, or one round of atomic additions.
use cache_server_go.Base.{
  ℕ, Bool, true, false, Option, none, some, List, [], ◌∷◌, ◌++◌, ◌≡◌, Bytes, sub64,
}
use cache_server_go.Metrics.{
  Metrics, add_origin_call, add_origin_error, add_coalesced, record_latency,
}
use cache_server_go.L1.Shard.{Entry, read}
use cache_server_go.L1.Cache
use cache_server_go.L1.Cache.{L1Cache, shard_of}
use cache_server_go.L1.Race.{finish_get}
use cache_server_go.L2.{Outside, l2_get, l2_set, l2_delete}
use cache_server_go.Manager.Store.{Settings}
use cache_server_go.Concurrent.Group.{Group, Role, leads, waits}

module _ (o : Outside) (g : Group) (settings : Settings) where
  open o use {World, now, fetch}
  open g use {Ticket, Table, join, finish, result, is_shared}

  -- What the goroutines share. `writes` are the background goroutines that have still to write to
  -- Redis. `origins` are the pairs that were set by a client or given by the origin so far, the
  -- latest first: nothing reads it.
  pub record Shared : Type 0 where
    pub l1 : L1Cache
    pub metrics : Metrics
    pub writes : List (Bytes × Bytes)
    pub table : Table
    pub world : World
    pub origins : List (Bytes × Bytes)

  -- Where a goroutine stands, with its live variables: the key, the start of `Get`, the ticket of
  -- its call of the group, if any, and what it has in hand.
  pub data Pc : Type 0 where
    idle : Pc
    getting : Bytes → ℕ → Pc  -- before the read lock of L1
    looked : Bytes → ℕ → Option Entry → Pc  -- after it
    missed : Bytes → ℕ → Pc  -- before `m.l2.Get`
    l2_hit : Bytes → ℕ → Bytes → Pc  -- before `m.l1.Set` of a hit in Redis
    l2_missed : Bytes → ℕ → Pc  -- before `fetchFromOrigin`
    leading : Bytes → ℕ → Option Ticket → Pc  -- before the call of the origin
    fetched : Bytes → ℕ → Option Ticket → Bytes → Pc  -- before `m.l1.Set` of what it gave
    ran : Bytes → ℕ → Option Ticket → Option Bytes → Pc  -- after `doOriginFetch`
    waiting : Bytes → ℕ → Ticket → Pc  -- for another goroutine's call of the group
    answering : Bytes → ℕ → Option Bytes → Pc  -- before the deferred `RecordLatency`
    answered : Bytes → Option Bytes → Pc
    setting : Bytes → Bytes → Pc  -- before `m.l1.Set`
    l1_set : Bytes → Bytes → Pc  -- before `m.l2.Set`
    deleting : Bytes → Pc  -- before `m.l1.Delete`
    l1_deleted : Bytes → Pc  -- before `m.l2.Delete`
    returned : Bool → Pc  -- from `Set` or `Invalidate`

  -- Where `Get` goes with the answer of L1, and with that of Redis.
  unfoldable pub after_look : Bytes → ℕ → Option Bytes → Pc
  after_look key start none = missed key start
  after_look key start (some v) = answering key start (some v)

  unfoldable pub after_redis : Bytes → ℕ → Option Bytes → Pc
  after_redis key start none = l2_missed key start
  after_redis key start (some v) = l2_hit key start v

  unfoldable pub after_join : Bytes → ℕ → Role Ticket → Pc
  after_join key start (leads n) = leading key start (some n)
  after_join key start (waits n) = waiting key start n

  -- The rest of `m.l1.Get` after its read, and `m.l2.Get`.
  unfoldable pub look_value : Option Entry → Bytes → Shared → Option Bytes
  look_value e key s = (finish_get e key (now s.world) s.l1 s.metrics).value

  unfoldable pub end_of_look : Option Entry → Bytes → Shared → Shared
  end_of_look e key s =
      let a = finish_get e key (now s.world) s.l1 s.metrics in
      record s { l1 = a.cache; metrics = a.metrics }

  unfoldable pub call_redis : Bytes → Shared → Shared
  call_redis key s =
      let r = l2_get o key s.metrics s.world in record s { metrics = r.metrics; world = r.world }

  -- What `doOriginFetch` does with the origin's answer up to its `m.l1.Set`, and where it goes.
  unfoldable pub take_fetched : Bytes → Option Bytes → Shared → Shared
  take_fetched key none s = record s { metrics = add_origin_error s.metrics }
  take_fetched key (some v) s = record s {
    writes = s.writes ++ ((key, v) ∷ []);
    origins = (key, v) ∷ s.origins;
  }

  unfoldable pub after_fetch : Bytes → ℕ → Option Ticket → Option Bytes → Pc
  after_fetch key start n none = ran key start n none
  after_fetch key start n (some v) = fetched key start n v

  unfoldable pub call_origin : Bytes → Shared → Shared
  unfolding take_fetched
  call_origin key s =
      let (val, w) = fetch key s.world in
      take_fetched key val (record s { metrics = add_origin_call s.metrics; world = w })

  -- `m.l1.Set` at the time of the world.
  unfoldable pub store_l1 : Bytes → Bytes → Shared → Shared
  store_l1 key v s = record s { l1 = Cache.set key v (now s.world) s.l1 }

  -- `if shared { metrics.Global.CoalescedCalls.Add(1) }`
  unfoldable pub count_shared : Bool → Metrics → Metrics
  count_shared true m = add_coalesced m
  count_shared false m = m

  -- The end of the leader's call of the group.
  unfoldable pub finish_call : Ticket → Option Bytes → Shared → Shared
  unfolding count_shared
  finish_call n r s = record s {
    metrics = count_shared (is_shared n s.table) s.metrics;
    table = finish n r s.table;
  }

  -- A step of one goroutine.
  pub data Move (s : Shared) : Pc → Shared → Pc → Type 0 where
    start_get : (key : Bytes) → Move s idle s (getting key (now s.world))
    look :
        (key : Bytes) (start : ℕ)
        → Move s (getting key start) s (looked key start (read key (shard_of key s.l1)))
    end_look :
        (key : Bytes) (start : ℕ) (e : Option Entry)
        → Move s
            (looked key start e)
            (end_of_look e key s)
            (after_look key start (look_value e key s))
    ask_redis :
        (key : Bytes) (start : ℕ)
        → Move s
            (missed key start)
            (call_redis key s)
            (after_redis key start (l2_get o key s.metrics s.world).value)
    fill :
        (key : Bytes) (start : ℕ) (v : Bytes)
        → Move s (l2_hit key start v) (store_l1 key v s) (answering key start (some v))
    go_direct :
        (key : Bytes) (start : ℕ)
        → settings.use_sf ≡ false
        → Move s (l2_missed key start) s (leading key start none)
    go_join :
        (key : Bytes) (start : ℕ)
        → settings.use_sf ≡ true
        → Move s
            (l2_missed key start)
            (record s { table = (join key s.table).1 })
            (after_join key start (join key s.table).0)
    ask_origin :
        (key : Bytes) (start : ℕ) (n : Option Ticket)
        → Move s
            (leading key start n)
            (call_origin key s)
            (after_fetch key start n (fetch key s.world).0)
    store :
        (key : Bytes) (start : ℕ) (n : Option Ticket) (v : Bytes)
        → Move s (fetched key start n v) (store_l1 key v s) (ran key start n (some v))
    return :
        (key : Bytes) (start : ℕ) (r : Option Bytes)
        → Move s (ran key start none r) s (answering key start r)
    end_call :
        (key : Bytes) (start : ℕ) (n : Ticket) (r : Option Bytes)
        → Move s (ran key start (some n) r) (finish_call n r s) (answering key start r)
    wake :
        (key : Bytes) (start : ℕ) (n : Ticket) (r : Option Bytes)
        → result n s.table ≡ some r
        → Move s
            (waiting key start n)
            (record s { metrics = add_coalesced s.metrics })
            (answering key start r)
    end_get :
        (key : Bytes) (start : ℕ) (r : Option Bytes)
        → Move s
            (answering key start r)
            (record s { metrics = record_latency (sub64 (now s.world) start) s.metrics })
            (answered key r)
    start_set :
        (key v : Bytes) → Move s idle (record s { origins = (key, v) ∷ s.origins }) (setting key v)
    set_l1 : (key v : Bytes) → Move s (setting key v) (store_l1 key v s) (l1_set key v)
    set_l2 :
        (key v : Bytes)
        → Move s
            (l1_set key v)
            (record s { world = (l2_set o key v settings.l2_ttl s.world).1 })
            (returned (l2_set o key v settings.l2_ttl s.world).0)
    start_delete : (key : Bytes) → Move s idle s (deleting key)
    delete_l1 :
        (key : Bytes)
        → Move s (deleting key) (record s { l1 = Cache.delete key s.l1 }) (l1_deleted key)
    delete_l2 :
        (key : Bytes)
        → Move s
            (l1_deleted key)
            (record s { world = (l2_delete o key s.world).1 })
            (returned (l2_delete o key s.world).0)
