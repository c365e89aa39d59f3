-- ===== src/Assets/Serves.antt =====
-- What a client of the asset handlers is served.
use cache_server_go.Base.{
  ℕ, ◌/◌, ◌++◌, codes, ◌≡◌, ◌≢◌, refl, ◌∙◌, if_pos, true, false, Option, some, [], ◌∷◌, Bytes,
  length, ℤ, pos, dec_bytes,
}
use cache_server_go.Base.Maps.{Map, lookup}
use cache_server_go.Assets.Cache.{CachedAsset, AssetCache, is_empty, IsRange}
use cache_server_go.Assets.Cache as Cache
use cache_server_go.Assets.Writes.{IsAccounted}
use cache_server_go.Assets.Laws.{remove_lem}
use cache_server_go.Assets.Handlers.{
  Storage, PutReply, put_done, AssetResponse, served, uploaded, deleted, take, upload_limit,
  upload_type, State, after_put, upload_ready, upload, serve_ready, serve_asset, delete_ready,
  delete_asset,
}
use cache_server_go.Assets.Paths.{
  set-Stored, miss_response, get-item, get-IsAccounted, upload_when_ready, serve_when_ready,
  delete_when_ready, serve_asset-hit, cache_then-Stored, after_look-miss,
}

module _ (extension_of : Bytes → Bytes) (m : Storage)
    (order : ℕ → Map CachedAsset → Map CachedAsset) where
  open m use {World, is_ready, put_object, get_object}

  -- `after_put` where MinIO took the object.
  record Uploaded (key content_type body : Bytes) (size : ℤ)
      (result : Option (AssetResponse × State extension_of m order)) : Type 0 where
    url : Bytes
    after : State extension_of m order
    cached_at : ℕ
    returns : result ≡ some (uploaded key url size content_type, after)
    there :
        lookup key after.cache.items
        ≡ some (record {
          content = body;
          content_type = content_type;
          size = pos (length body);
          cached_at = cached_at;
        })

  after_put-Uploaded :
      (key content_type body : Bytes) (reply : PutReply) (size : ℤ) (s : State extension_of m order)
      → IsRange order
      → is_empty key ≡ false
      → IsAccounted s.cache
      → reply ≡ put_done size
      → Uploaded key content_type body size
          (after_put extension_of m order key content_type body reply s)
  unfolding after_put
  after_put-Uploaded key content_type body reply size s range named o h =
      let url = codes "/assets/" ++ key in
      let w =
        m.add_to_index key
          (m.set_meta key content_type size url (m.now s.world / 1_000_000_000) s.world) in
      let asset : CachedAsset = record {
        content = body;
        content_type = content_type;
        size = pos (length body);
        cached_at = m.now w;
      } in
      let t = set-Stored order key asset s.cache range named o in
      rw h (record {
        url = url;
        after = record { cache = t.after; world = w };
        cached_at = m.now w;
        returns =
            cache_then-Stored extension_of m order key asset (uploaded key url size content_type)
              (record s { world = w }) t;
        there = t.there;
      })

  -- Where the backend is ready, the name is not empty, the cache is accounted and iteration orders
  -- meet each entry and nothing else: once MinIO took an upload, whatever was cached at the name
  -- before, the next request for it is a hit with the type of the upload and the bytes of the body
  -- up to the limit of 100 MB. A longer body is cut there, and the upload still succeeds.
  pub serve_asset-upload :
      (key header sent : Bytes) (size : ℤ) (s : State extension_of m order)
      → IsRange order
      → IsAccounted s.cache
      → is_ready ≡ true
      → key ≢ []
      → let content_type = upload_type extension_of header key in
        let body = take upload_limit sent in
        (put_object key content_type body s.world).0 ≡ put_done size
        → (url : Bytes) × (after end : State extension_of m order) × (upload extension_of m order
              key header
              (some sent)
              s
            ≡ some (uploaded key url size content_type, after))
          × (serve_asset extension_of m order key after
              ≡ some (served content_type (pos (length body)) true body, end))
  unfolding upload_ready
  serve_asset-upload [] header sent size s range o ready n h = absurd (n refl)
  serve_asset-upload (c ∷ cs) header sent size s range o ready n h =
      let content_type = upload_type extension_of header (c ∷ cs) in
      let body = take upload_limit sent in
      let (reply, w) = put_object (c ∷ cs) content_type body s.world in
      let u =
        after_put-Uploaded (c ∷ cs) content_type body reply size (record s { world = w }) range refl
          o h in
      let (end, hit) =
        serve_asset-hit extension_of m order (c ∷ cs)
          (record {
            content = body;
            content_type = content_type;
            size = pos (length body);
            cached_at = u.cached_at;
          })
          u.after ready n u.there in
      (
        u.url,
        u.after,
        end,
        upload_when_ready extension_of m order (c ∷ cs) header (some sent) s ready ∙ u.returns,
        hit,
      )

  -- Where the backend is ready, the name is not empty, the cache is accounted and iteration orders
  -- meet each entry and nothing else: a deletion reports success whatever MinIO did, and after it
  -- the next request for the name is a miss that answers what MinIO then gives: 404 if the object
  -- is gone, and the object again if its removal failed.
  pub serve_asset-delete_asset :
      (key : Bytes) (s : State extension_of m order)
      → IsRange order
      → IsAccounted s.cache
      → is_ready ≡ true
      → key ≢ []
      → let (response, after) = delete_asset extension_of m order key s in
        (response ≡ deleted key)
        × (end : State extension_of m order) × (serve_asset extension_of m order key after
            ≡ some (miss_response (get_object key after.world).0, end))
  unfolding delete_ready serve_ready
  serve_asset-delete_asset [] s range o ready n = absurd (n refl)
  serve_asset-delete_asset (c ∷ cs) s range o ready n =
      let key = c ∷ cs in
      let (books, gone) = remove_lem key key s.cache o in
      let cache = Cache.remove key s.cache in
      let after = (delete_ready extension_of m order key s).1 in
      let (end, miss) =
        after_look-miss extension_of m order key (Cache.get key cache).1
          (record after { cache = (Cache.get key cache).0 }) range refl
          (get-IsAccounted key cache books)
          (get-item key cache ∙ gone ∙ if_pos (dec_bytes key key) refl _ _) in
      rw (delete_when_ready extension_of m order key s ready)
        (refl, end, serve_when_ready extension_of m order key after ready ∙ miss)
