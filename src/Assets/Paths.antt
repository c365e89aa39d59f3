-- ===== src/Assets/Paths.antt =====
-- The paths of the asset handlers: a hit, a miss, and the write of the cache.
use cache_server_go.Base.{
  ℕ, codes, ◌≡◌, ◌≢◌, refl, ap, ◌∙◌, inl, inr, true, false, Option, none, some, [], ◌∷◌, Bytes,
  Option-cases, if◌then◌else◌, arith,
}
use cache_server_go.Base.Maps.{Map, lookup}
use cache_server_go.Assets.Cache.{CachedAsset, AssetCache, is_empty, IsRange}
use cache_server_go.Assets.Cache as Cache
use cache_server_go.Assets.Writes.{IsAccounted}
use cache_server_go.Assets.Laws.{set_new, set_over}
use cache_server_go.Assets.Handlers.{
  Storage, GetReply, not_found, unreadable, an_object, AssetResponse, asset_error, served, State,
  cache_then, upload_ready, upload, after_miss, after_look, serve_ready, serve_asset, delete_ready,
  delete_asset,
}

-- A `set` returns and stores its asset, whether or not the key was stored.
pub record Stored (order : ℕ → Map CachedAsset → Map CachedAsset) (key : Bytes)
    (asset : CachedAsset) (c : AssetCache) : Type 0 where
  pub after : AssetCache
  pub returns : Cache.set order key asset c ≡ some after
  pub there : lookup key after.items ≡ some asset

pub set-Stored :
    (order : ℕ → Map CachedAsset → Map CachedAsset) (key : Bytes) (asset : CachedAsset)
    (c : AssetCache)
    → IsRange order
    → is_empty key ≡ false
    → IsAccounted c
    → Stored order key asset c
set-Stored order key asset c range named o = elim (Option-cases (lookup key c.items)) [
  | inl new ↦
      let (after, returns, sets, fits) = set_new order range key asset c named new o in
      record { after = after; returns = returns; there = sets.stored }
  | inr (old, found) ↦
      let (after, returns, sets) = set_over order range key asset c old named found o in
      record {
        after = after;
        returns = returns;
        there = elim sets [ inl s ↦ s.stored | inr s ↦ s.stored ];
      }
]

-- What a miss answers for what MinIO gave.
abbrev pub miss_response : GetReply → AssetResponse
miss_response not_found = asset_error (codes "{\"error\":\"not found\"}") 404
miss_response unreadable = asset_error (codes "{\"error\":\"read failed\"}") 500
miss_response (an_object content_type size content) = served content_type size false content

pub get-item : (key : Bytes) (c : AssetCache) → (Cache.get key c).1 ≡ lookup key c.items
unfolding Cache.get
get-item key c = ground arith

pub get-IsAccounted :
    (key : Bytes) (c : AssetCache) → IsAccounted c → IsAccounted (Cache.get key c).0
unfolding Cache.get
get-IsAccounted key c o = elim (Option-cases (lookup key c.items)) [
  | inl e ↦ rw (e, Cache.get) (record { unique = o.unique; named = o.named; books = o.books })
  | inr (x, e) ↦ rw (e, Cache.get) (record { unique = o.unique; named = o.named; books = o.books })
]

module _ (extension_of : Bytes → Bytes) (m : Storage)
    (order : ℕ → Map CachedAsset → Map CachedAsset) where
  open m use {World, is_ready, put_object, get_object}

  after_look-hit :
      (key : Bytes) (item : Option CachedAsset) (a : CachedAsset) (s : State extension_of m order)
      → item ≡ some a
      → after_look extension_of m order key item s
        ≡ some (served a.content_type a.size true a.content, s)
  unfolding after_look
  after_look-hit key item a s h = rw h refl

  unavailable : AssetResponse
  unavailable = asset_error (codes "{\"error\":\"binary storage backend unavailable\"}") 503

  pub upload_when_ready :
      (key header : Bytes) (body : Option Bytes) (s : State extension_of m order)
      → is_ready ≡ true
      → upload extension_of m order key header body s
        ≡ upload_ready extension_of m order key header body s
  unfolding upload unavailable
  upload_when_ready key header body s ready =
      ap
        (λ b.
          if b then upload_ready extension_of m order key header body s else some (unavailable, s))
        ready

  pub serve_when_ready :
      (key : Bytes) (s : State extension_of m order)
      → is_ready ≡ true
      → serve_asset extension_of m order key s ≡ serve_ready extension_of m order key s
  unfolding serve_asset unavailable
  serve_when_ready key s ready =
      ap (λ b. if b then serve_ready extension_of m order key s else some (unavailable, s)) ready

  pub delete_when_ready :
      (key : Bytes) (s : State extension_of m order)
      → is_ready ≡ true
      → delete_asset extension_of m order key s ≡ delete_ready extension_of m order key s
  unfolding delete_asset unavailable
  delete_when_ready key s ready =
      ap (λ b. if b then delete_ready extension_of m order key s else (unavailable, s)) ready

  -- Where the backend is ready, `serveAsset` of a stored key is a hit.
  pub serve_asset-hit :
      (key : Bytes) (a : CachedAsset) (s : State extension_of m order)
      → is_ready ≡ true
      → key ≢ []
      → lookup key s.cache.items ≡ some a
      → (end : State extension_of m order) × (serve_asset extension_of m order key s
          ≡ some (served a.content_type a.size true a.content, end))
  unfolding serve_ready
  serve_asset-hit [] a s ready n h = absurd (n refl)
  serve_asset-hit (c ∷ cs) a s ready n h = (
    record s { cache = (Cache.get (c ∷ cs) s.cache).0 },
    serve_when_ready (c ∷ cs) s ready
        ∙ after_look-hit (c ∷ cs) (Cache.get (c ∷ cs) s.cache).1 a _
            (get-item (c ∷ cs) s.cache ∙ h),
  )

  pub cache_then-Stored :
      (key : Bytes) (asset : CachedAsset) (response : AssetResponse)
      (s : State extension_of m order) (t : Stored order key asset s.cache)
      → cache_then extension_of m order key asset response s
        ≡ some (response, record s { cache = t.after })
  unfolding cache_then
  cache_then-Stored key asset response s t = rw (t.returns, cache_then)

  after_miss-returns :
      (key : Bytes) (reply : GetReply) (s : State extension_of m order)
      → IsRange order
      → is_empty key ≡ false
      → IsAccounted s.cache
      → (end : State extension_of m order) × (after_miss extension_of m order key reply s
          ≡ some (miss_response reply, end))
  unfolding after_miss
  after_miss-returns key not_found s range named o = (s, refl)
  after_miss-returns key unreadable s range named o = (s, refl)
  after_miss-returns key (an_object content_type size content) s range named o =
      let asset : CachedAsset = record {
        content = content;
        content_type = content_type;
        size = size;
        cached_at = m.now s.world;
      } in
      let t = set-Stored order key asset s.cache range named o in
      (
        record s { cache = t.after },
        cache_then-Stored key asset (served content_type size false content) s t,
      )

  pub after_look-miss :
      (key : Bytes) (item : Option CachedAsset) (s : State extension_of m order)
      → IsRange order
      → is_empty key ≡ false
      → IsAccounted s.cache
      → item ≡ none
      → (end : State extension_of m order) × (after_look extension_of m order key item s
          ≡ some (miss_response (get_object key s.world).0, end))
  unfolding after_look
  after_look-miss key item s range named o h =
      let (reply, w) = get_object key s.world in
      rw h (after_miss-returns key reply (record s { world = w }) range named o)
