-- ===== src/Http/Handlers.antt =====
-- `Handler` of internal/handler/handler.go over the manager: the handlers of the keys. The JSON codec is
-- a parameter, and so is what `http.Error` writes. `getStats`, `health` and the
-- middleware are in Http/Middleware.antt.
use cache_server_go.Base.{ℕ, Bool, true, false, Option, none, some, List, [], ◌∷◌, Bytes, codes}
use cache_server_go.Base.Maps.{Map, insert}
use cache_server_go.L2.{Outside}
use cache_server_go.Manager.Store as Manager
use cache_server_go.Manager.Store.{Settings, State}

-- What a handler writes: by `http.Error`, or a body of JSON with a status, 200 unless another was
-- written.
pub data Response : Type 0 where
  http_error : Bytes → ℕ → Response
  json_body : ℕ → Bytes → Response

-- The JSON codec: whether a text is valid JSON, and what `json.Encoder` writes for a map of raw
-- messages; `none` is an error, where it writes nothing.
pub record Codec : Type 0 where
  pub is_valid : Bytes → Bool
  pub encode : Map Bytes → Option Bytes

abbrev pub key_required : Response
key_required = http_error (codes "{\"error\":\"key required\"}") 400

abbrev pub invalid_body : Response
invalid_body = http_error (codes "{\"error\":\"invalid body\"}") 400

abbrev pub internal_error : Response
internal_error = http_error (codes "{\"error\":\"internal error\"}") 500

-- `json.NewEncoder(w).Encode(results)`, whose error is dropped.
unfoldable pub encoded : Option Bytes → Response
encoded none = json_body 200 []
encoded (some body) = json_body 200 body

-- The raw message for a result of the manager.
unfoldable pub raw_message : Option Bytes → Bytes
raw_message none = codes "{\"error\":\"fetch failed\"}"
raw_message (some val) = val

unfoldable pub get_response : Option Bytes → Response
get_response none = internal_error
get_response (some val) = json_body 200 val

unfoldable pub put_response : Bool → Response
put_response false = internal_error
put_response true = json_body 201 (codes "{\"status\":\"ok\"}")

unfoldable pub delete_response : Bool → Response
delete_response false = internal_error
delete_response true = json_body 200 (codes "{\"status\":\"invalidated\"}")

module _ (o : Outside) (settings : Settings) where
  -- `getCache`
  unfoldable pub get_cache : Bytes → State o settings → Response × State o settings
  get_cache [] s = (key_required, s)
  get_cache (b ∷ bs) s =
      let r = Manager.get o settings (b ∷ bs) s in (get_response r.value, r.state)

  -- `putCache`, with the field `value` of the decoded body.
  unfoldable pub put_cache : Bytes → Option Bytes → State o settings → Response × State o settings
  put_cache [] body s = (key_required, s)
  put_cache (b ∷ bs) none s = (invalid_body, s)
  put_cache (b ∷ bs) (some value) s =
      let (done, s') = Manager.set o settings (b ∷ bs) value s in (put_response done, s')

  -- `deleteCache`
  unfoldable pub delete_cache : Bytes → State o settings → Response × State o settings
  delete_cache [] s = (key_required, s)
  delete_cache (b ∷ bs) s =
      let (done, s') = Manager.invalidate o settings (b ∷ bs) s in (delete_response done, s')

  -- The loop of `batchGet`, from the results so far.
  unfoldable pub results_from :
      List Bytes → Map Bytes → State o settings → Map Bytes × State o settings
  results_from [] results s = (results, s)
  results_from (key ∷ keys) results s =
      let r = Manager.get o settings key s in
      results_from keys (insert key (raw_message r.value) results) r.state

  -- `batchGet`, with the field `keys` of the decoded body.
  unfoldable pub batch_get :
      Codec → Option (List Bytes) → State o settings → Response × State o settings
  batch_get codec none s = (invalid_body, s)
  batch_get codec (some keys) s =
      let (results, s') = results_from keys [] s in (encoded (codec.encode results), s')
