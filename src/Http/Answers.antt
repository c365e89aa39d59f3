-- ===== src/Http/Answers.antt =====
-- What a client of the HTTP API sees.
use cache_server_go.Base.{
  ◌+◌, ◌≤◌, ◌≡◌, ◌≢◌, refl, ap, ◌∙◌, if_pos, false, none, some, List, [], ◌∷◌, ◌++◌, Bytes,
  dec_bytes,
}
use cache_server_go.Base.Maps.{Map, lookup, insert, lookup-insert}
use cache_server_go.L1.Cache.{shard_of}
use cache_server_go.L1.Evict.{IsValid}
use cache_server_go.L2.{Outside}
use cache_server_go.Manager.Store as Manager
use cache_server_go.Manager.Store.{Settings, State}
use cache_server_go.Manager.Requests.{get-set_through}
use cache_server_go.Http.Handlers.{
  json_body, Codec, encoded, raw_message, get_response, put_response, get_cache, put_cache,
  results_from, batch_get,
}

module _ (o : Outside) (settings : Settings) where
  open o use {now, redis_set}

  -- After a PUT of a value for a key that is not empty, on a valid shard, a GET of the key that
  -- reads the clock within the TTL answers 200 with the value; and it does so also where Redis
  -- refused the write and the PUT answered 500.
  pub get_cache-put_cache :
      (key value : Bytes) (s : State o settings)
      → key ≢ []
      → IsValid (shard_of key s.l1)
      → let (r, s') = put_cache o settings key (some value) s in
        now s'.world ≤ now s.world + (s.l1).ttl
        → (r ≡ put_response (redis_set key value settings.l2_ttl s.world).0)
          × ((get_cache o settings key s').0 ≡ json_body 200 value)
  unfolding get_cache put_cache get_response Manager.set Manager.l1_set
  get_cache-put_cache [] value s n v h = absurd (n refl)
  get_cache-put_cache (b ∷ bs) value s n v h =
      (refl, ap get_response (get-set_through o settings (b ∷ bs) value s v h).0)

  results_from-append :
      (keys : List Bytes) (key : Bytes) (m : Map Bytes) (s : State o settings)
      → (results_from o settings (keys ++ (key ∷ [])) m s).0
        ≡ insert key
            (raw_message (Manager.get o settings key (results_from o settings keys m s).1).value)
            (results_from o settings keys m s).0
  unfolding results_from
  results_from-append [] key m s = refl
  results_from-append (k ∷ keys) key m s =
      let r = Manager.get o settings k s in
      results_from-append keys key (insert k (raw_message r.value) m) r.state

  -- If the encoder fails on a map that holds a message that is not valid JSON, and the last key of a
  -- batch has such a value, the batch answers 200 with an empty body, whatever the other keys hold.
  pub batch_get_of_invalid :
      (codec : Codec)
      → ((m : Map Bytes) (k v : Bytes)
          → lookup k m ≡ some v
          → codec.is_valid v ≡ false
          → codec.encode m ≡ none)
      → (keys : List Bytes) (key v : Bytes) (s : State o settings)
      → (Manager.get o settings key (results_from o settings keys [] s).1).value ≡ some v
      → codec.is_valid v ≡ false
      → (batch_get o settings codec (some (keys ++ (key ∷ []))) s).0 ≡ json_body 200 []
  unfolding batch_get encoded raw_message
  batch_get_of_invalid codec fails keys key v s given invalid =
      let m = (results_from o settings keys [] s).0 in
      ap encoded (
        fails (results_from o settings (keys ++ (key ∷ [])) [] s).0 key v
          (ap (lookup key) (results_from-append keys key [] s)
            ∙ ap (λ r. lookup key (insert key (raw_message r) m)) given
            ∙ lookup-insert key key v m
            ∙ if_pos (dec_bytes key key) refl _ _)
          invalid)
