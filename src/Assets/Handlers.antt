-- ===== src/Assets/Handlers.antt =====
-- The handlers of `BinaryHandler` in internal/binaryhandler/handler.go that change state: `upload`,
-- `serveAsset` and `deleteAsset`, and `detectContentType`. MinIO, Redis and the clock are
-- parameters; an error that is only logged is left out.
use cache_server_go.Base.{
  ℕ, zero, suc, ◌*◌, ◌/◌, Bool, true, false, Option, none, some, List, [], ◌∷◌, ◌++◌, Bytes, codes,
  dec_bytes, ite, if◌then◌else◌, length, ℤ, pos,
}
use cache_server_go.Base.Maps.{Map}
use cache_server_go.Assets.Cache.{CachedAsset, AssetCache}
use cache_server_go.Assets.Cache as Cache

-- What MinIO answers to a `PutObject`: the stored size, or an error with its text.
pub data PutReply : Type 0 where
  put_done : ℤ → PutReply
  put_failed : Bytes → PutReply

-- What `GetObject`, `Stat` and `io.ReadAll` give: no object, an object that does not read, or its
-- content type, size and data.
pub data GetReply : Type 0 where
  not_found : GetReply
  unreadable : GetReply
  an_object : Bytes → ℤ → Bytes → GetReply

-- The world outside: MinIO, the metadata and the index in Redis, and the clock in nanoseconds.
pub record Storage : Type 1 where
  pub World : Type 0
  pub now : World → ℕ
  pub is_ready : Bool
  pub put_object : Bytes → Bytes → Bytes → World → PutReply × World
  pub get_object : Bytes → World → GetReply × World
  pub remove_object : Bytes → World → World
  pub set_meta : Bytes → Bytes → ℤ → Bytes → ℕ → World → World
  pub del_meta : Bytes → World → World
  pub add_to_index : Bytes → World → World
  pub remove_from_index : Bytes → World → World

-- What a handler writes: by `http.Error`, an asset with its type, size, whether it was a hit, and its
-- data, or a report.
pub data AssetResponse : Type 0 where
  asset_error : Bytes → ℕ → AssetResponse
  served : Bytes → ℤ → Bool → Bytes → AssetResponse
  uploaded : Bytes → Bytes → ℤ → Bytes → AssetResponse
  deleted : Bytes → AssetResponse

abbrev pub octet_stream : Bytes
octet_stream = codes "application/octet-stream"

-- The cases of the switch of `detectContentType`.
abbrev pub content_types : List (Bytes × Bytes)
content_types =
    (codes ".png", codes "image/png")
    ∷ (codes ".jpg", codes "image/jpeg")
    ∷ (codes ".jpeg", codes "image/jpeg")
    ∷ (codes ".gif", codes "image/gif")
    ∷ (codes ".webp", codes "image/webp")
    ∷ (codes ".svg", codes "image/svg+xml")
    ∷ (codes ".mp4", codes "video/mp4")
    ∷ (codes ".ts", codes "video/mp2t")
    ∷ (codes ".m3u8", codes "application/vnd.apple.mpegurl")
    ∷ (codes ".webm", codes "video/webm")
    ∷ (codes ".mov", codes "video/quicktime")
    ∷ (codes ".avif", codes "image/avif")
    ∷ (codes ".ico", codes "image/x-icon")
    ∷ (codes ".woff2", codes "font/woff2")
    ∷ (codes ".woff", codes "font/woff")
    ∷ (codes ".ttf", codes "font/ttf")
    ∷ (codes ".css", codes "text/css")
    ∷ (codes ".js", codes "application/javascript")
    ∷ []

unfoldable pub switch_on : List (Bytes × Bytes) → Bytes → Bytes
switch_on [] ext = octet_stream
switch_on ((e, content_type) ∷ cases) ext = ite (dec_bytes e ext) content_type (switch_on cases ext)

-- `io.LimitReader`: the first bytes, the rest is dropped.
unfoldable pub take : ℕ → Bytes → Bytes
take n [] = []
take zero (b ∷ bs) = []
take (suc n) (b ∷ bs) = b ∷ take n bs

abbrev pub upload_limit : ℕ
upload_limit = 100 * 1024 * 1024

-- `strings.ToLower(filepath.Ext(filename))` is a parameter.
module _ (extension_of : Bytes → Bytes) where
  unfoldable pub detect_content_type : Bytes → Bytes
  detect_content_type filename = switch_on content_types (extension_of filename)

  -- The content type of an upload: that of its header, unless it says nothing.
  unfoldable pub upload_type : Bytes → Bytes → Bytes
  upload_type [] filename = detect_content_type filename
  upload_type (b ∷ bs) filename =
      ite (dec_bytes (b ∷ bs) octet_stream) (detect_content_type filename) (b ∷ bs)

module _ (extension_of : Bytes → Bytes) (m : Storage)
    (order : ℕ → Map CachedAsset → Map CachedAsset) where
  open m use {
    World, now, is_ready, put_object, get_object, remove_object, set_meta, del_meta, add_to_index,
    remove_from_index,
  }

  pub record State : Type 0 where
    pub cache : AssetCache
    pub world : World

  -- `h.cache.set` of an asset, then the response; `none` is a `set` that does not return.
  unfoldable pub cache_then :
      Bytes → CachedAsset → AssetResponse → State → Option (AssetResponse × State)
  cache_then key asset response s = elim (Cache.set order key asset s.cache) [
    | none ↦ none
    | some cache ↦ some (response, record s { cache = cache })
  ]

  -- `upload` after MinIO's answer.
  unfoldable pub after_put :
      Bytes → Bytes → Bytes → PutReply → State → Option (AssetResponse × State)
  after_put key content_type body (put_failed text) s =
      some
        (asset_error (codes "{\"error\":\"storage upload failed: " ++ (text ++ codes "\"}")) 502, s)
  after_put key content_type body (put_done size) s =
      let url = codes "/assets/" ++ key in
      let w =
        add_to_index key
          (set_meta key content_type size url (now s.world / 1_000_000_000) s.world) in
      cache_then key
        (record {
          content = body;
          content_type = content_type;
          size = pos (length body);
          cached_at = now w;
        })
        (uploaded key url size content_type) (record s { world = w })

  -- `upload` where the backend is ready; `none` is a body that does not read up to the limit.
  unfoldable pub upload_ready :
      Bytes → Bytes → Option Bytes → State → Option (AssetResponse × State)
  upload_ready [] header body s =
      some (asset_error (codes "{\"error\":\"filename required\"}") 400, s)
  upload_ready (c ∷ cs) header none s =
      some (asset_error (codes "{\"error\":\"failed to read body\"}") 400, s)
  upload_ready (c ∷ cs) header (some sent) s =
      let content_type = upload_type extension_of header (c ∷ cs) in
      let body = take upload_limit sent in
      let (reply, w) = put_object (c ∷ cs) content_type body s.world in
      after_put (c ∷ cs) content_type body reply (record s { world = w })

  -- `upload`
  unfoldable pub upload : Bytes → Bytes → Option Bytes → State → Option (AssetResponse × State)
  upload filename header body s =
      if is_ready
      then upload_ready filename header body s
      else some (asset_error (codes "{\"error\":\"binary storage backend unavailable\"}") 503, s)

  -- `serveAsset` after a miss, for MinIO's answer.
  unfoldable pub after_miss : Bytes → GetReply → State → Option (AssetResponse × State)
  after_miss key not_found s = some (asset_error (codes "{\"error\":\"not found\"}") 404, s)
  after_miss key unreadable s = some (asset_error (codes "{\"error\":\"read failed\"}") 500, s)
  after_miss key (an_object content_type size content) s =
      cache_then key
        (record {
          content = content;
          content_type = content_type;
          size = size;
          cached_at = now s.world;
        })
        (served content_type size false content) s

  -- `serveAsset` after the look into the cache.
  unfoldable pub after_look : Bytes → Option CachedAsset → State → Option (AssetResponse × State)
  after_look key (some cached) s =
      some (served cached.content_type cached.size true cached.content, s)
  after_look key none s =
      let (reply, w) = get_object key s.world in after_miss key reply (record s { world = w })

  unfoldable pub serve_ready : Bytes → State → Option (AssetResponse × State)
  serve_ready [] s = some (asset_error (codes "{\"error\":\"filename required\"}") 400, s)
  serve_ready (c ∷ cs) s =
      let (cache, item) = Cache.get (c ∷ cs) s.cache in
      after_look (c ∷ cs) item (record s { cache = cache })

  -- `serveAsset`
  unfoldable pub serve_asset : Bytes → State → Option (AssetResponse × State)
  serve_asset filename s =
      if is_ready
      then serve_ready filename s
      else some (asset_error (codes "{\"error\":\"binary storage backend unavailable\"}") 503, s)

  unfoldable pub delete_ready : Bytes → State → AssetResponse × State
  delete_ready [] s = (asset_error (codes "{\"error\":\"key required\"}") 400, s)
  delete_ready (c ∷ cs) s =
      let key = c ∷ cs in
      let w = remove_from_index key (del_meta key (remove_object key s.world)) in
      (deleted key, record { cache = Cache.remove key s.cache; world = w })

  -- `deleteAsset`
  unfoldable pub delete_asset : Bytes → State → AssetResponse × State
  delete_asset key s =
      if is_ready
      then delete_ready key s
      else (asset_error (codes "{\"error\":\"binary storage backend unavailable\"}") 503, s)
