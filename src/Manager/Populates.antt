-- ===== src/Manager/Populates.antt =====
-- A `Get` that returns a value leaves it in L1.
use mathlib.Core.Option.{some-injective}
use cache_server_go.Base.{
  ℕ, ◌+◌, ◌≡◌, ◌≢◌, refl, ◌∙◌, inl, inr, true, false, Option, none, some, Bytes, Option-cases,
  Bool-cases, if_pos, dec_bytes,
}
use cache_server_go.Metrics.{Metrics}
use cache_server_go.L1.Shard.{Entry, read, is_expired}
use cache_server_go.L1.Cache
use cache_server_go.L1.Cache.{L1Cache, shard_of, shard_index}
use cache_server_go.L1.Reads.{set-SetReads}
use cache_server_go.L1.Valid.{AllValid, get-AllValid}
use cache_server_go.L2.{Outside, Flight, lead, follow, l2_get}
use cache_server_go.Manager.Store.{
  Settings, State, l1_set, fetched, do_origin_fetch, count_shared, in_flight, fetch_from_origin,
  after_l2, after_l1, record_since, get,
}

-- The value is stored at the key in L1.
abbrev pub IsCached : Bytes → Bytes → L1Cache → Type 0
IsCached key v c = (e : Entry) × (read key (shard_of key c) ≡ some e) × (e.value ≡ v)

set-IsCached :
    (key v : Bytes) (now bound : ℕ) (c : L1Cache)
    → AllValid bound c
    → IsCached key v (Cache.set key v now c)
unfolding shard_of
set-IsCached key v now bound c a = (
  record { value = v; expires_at = now + c.ttl },
  (set-SetReads key v now c (a.shard (shard_index key))).reads key
      ∙ if_pos (dec_bytes key key) refl _ _,
  refl,
)

-- A hit of L1 was stored, and stays so.
l1_get-IsCached :
    (key v : Bytes) (now : ℕ) (c : L1Cache) (m : Metrics)
    → (Cache.get key now c m).value ≡ some v
    → IsCached key v (Cache.get key now c m).cache
unfolding Cache.get
l1_get-IsCached key v now c m h = elim (Option-cases (read key (shard_of key c))) [
  | inl e ↦ absurd (miss (rw (e, Cache.get) at h))
  | inr (x, e) ↦ elim (Bool-cases (is_expired now x)) [
    | inl old ↦ absurd (miss (rw (e, Cache.get, old) at h))
    | inr new ↦ rw (e, Cache.get, new) (x, e, some-injective _ _ (rw (e, Cache.get, new) at h))
  ]
]
  where
    miss : none ≡ some v → ⊥
    miss q = cc

module _ (o : Outside) (settings : Settings) (key v : Bytes) (bound : ℕ) where
  open o use {World, now, flight}

  fetched-IsCached :
      (val : Option Bytes) (s : State o settings)
      → AllValid bound s.l1
      → (fetched o settings key val s).value ≡ some v
      → IsCached key v (fetched o settings key val s).state.l1
  unfolding fetched l1_set
  fetched-IsCached none s a h = absurd (cc)
  fetched-IsCached (some val) s a h =
      rw (← some-injective _ _ h) (set-IsCached key val (now s.world) bound s.l1 a)

  do_origin_fetch-IsCached :
      (s : State o settings)
      → AllValid bound s.l1
      → (do_origin_fetch o settings key s).value ≡ some v
      → IsCached key v (do_origin_fetch o settings key s).state.l1
  unfolding do_origin_fetch
  do_origin_fetch-IsCached s a h = fetched-IsCached _ _ a h

  in_flight-IsCached :
      (f : Flight) (s : State o settings)
      → AllValid bound s.l1
      → ((r : Option Bytes) → f ≢ follow r)
      → (in_flight o settings f key s).value ≡ some v
      → IsCached key v (in_flight o settings f key s).state.l1
  unfolding in_flight count_shared
  in_flight-IsCached (lead true) s a n h = do_origin_fetch-IsCached s a h
  in_flight-IsCached (lead false) s a n h = do_origin_fetch-IsCached s a h
  in_flight-IsCached (follow r) s a n h = absurd (n r refl)

  fetch_from_origin-IsCached :
      (s : State o settings)
      → AllValid bound s.l1
      → ((r : Option Bytes) → flight key s.world ≢ follow r)
      → (fetch_from_origin o settings key s).value ≡ some v
      → IsCached key v (fetch_from_origin o settings key s).state.l1
  unfolding fetch_from_origin
  fetch_from_origin-IsCached s a n h = elim (Bool-cases settings.use_sf) [
    | inl on ↦ rw (on) (in_flight-IsCached (flight key s.world) s a n (rw on at h))
    | inr off ↦ rw (off) (do_origin_fetch-IsCached s a (rw off at h))
  ]

  after_l2-IsCached :
      (val : Option Bytes) (s : State o settings)
      → AllValid bound s.l1
      → ((r : Option Bytes) → flight key s.world ≢ follow r)
      → (after_l2 o settings key val s).value ≡ some v
      → IsCached key v (after_l2 o settings key val s).state.l1
  unfolding after_l2 l1_set
  after_l2-IsCached none s a n h = fetch_from_origin-IsCached s a n h
  after_l2-IsCached (some val) s a n h =
      rw (← some-injective _ _ h) (set-IsCached key val (now s.world) bound s.l1 a)

  after_l1-IsCached :
      (val : Option Bytes) (s : State o settings)
      → AllValid bound s.l1
      → ((w : World) (r : Option Bytes) → flight key w ≢ follow r)
      → (val ≡ some v → IsCached key v s.l1)
      → (after_l1 o settings key val s).value ≡ some v
      → IsCached key v (after_l1 o settings key val s).state.l1
  unfolding after_l1
  after_l1-IsCached (some val) s a n given h = given h
  after_l1-IsCached none s a n given h =
      let r = l2_get o key s.metrics s.world in
      after_l2-IsCached r.value (record s { metrics = r.metrics; world = r.world }) a (n r.world) h

  -- If all shards are valid and no request gets the result of another's flight, a `Get` that
  -- returns a value leaves the value in L1, whether L1, Redis or the origin gave it.
  pub get-IsCached :
      (s : State o settings)
      → AllValid bound s.l1
      → ((w : World) (r : Option Bytes) → flight key w ≢ follow r)
      → (get o settings key s).value ≡ some v
      → IsCached key v (get o settings key s).state.l1
  unfolding get record_since
  get-IsCached s a n h =
      let x = Cache.get key (now s.world) s.l1 s.metrics in
      after_l1-IsCached x.value (record s { l1 = x.cache; metrics = x.metrics })
        (get-AllValid bound key (now s.world) s.l1 s.metrics a) n
        (l1_get-IsCached key v (now s.world) s.l1 s.metrics) h
