-- ===== src/Http/Middleware.antt =====
-- The middleware of internal/handler/handler.go, in the order in which cmd/server/main.go puts it,
-- and the handlers that only report. Log lines are left out.
use cache_server_go.Base.{
  ◌≡◌, Option, none, some, ◌++◌, Bytes, codes, dec_bytes, ite, if_pos, if_neg, ◌≢◌,
}
use cache_server_go.Http.Handlers.{Response, http_error, json_body, encoded}

-- A handler writes a response, or panics, perhaps after it wrote one.
pub data Served : Type 0 where
  wrote : Response → Served
  panics : Option Response → Served

-- `RecoveryMiddleware`: `http.Error` writes the status and the body, or only appends to what was
-- written before.
unfoldable pub recovered : Served → Response
recovered (wrote r) = r
recovered (panics none) = http_error (codes "{\"error\":\"internal server error\"}") 500
recovered (panics (some (http_error text status))) =
    http_error (text ++ (codes "\n" ++ codes "{\"error\":\"internal server error\"}")) status
recovered (panics (some (json_body status body))) =
    json_body status (body ++ codes "{\"error\":\"internal server error\"}\n")

-- A response with the headers of `CORSMiddleware`; a preflight has a status and no body.
pub record CorsAnswer : Type 0 where
  pub allow_origin : Bytes
  pub allow_methods : Bytes
  pub allow_headers : Bytes
  pub reply : Option Response

abbrev with_cors : Option Response → CorsAnswer
with_cors r = record {
  allow_origin = codes "*";
  allow_methods = codes "GET, PUT, POST, DELETE, OPTIONS";
  allow_headers = codes "Content-Type";
  reply = r;
}

module _ {S : Type 0} where
  unfoldable pub recovery : (S → Served × S) → S → Response × S
  recovery next s = let (r, s') = next s in (recovered r, s')

  -- `CORSMiddleware`; a preflight is answered with 204 and goes no further.
  unfoldable pub cors : Bytes → (S → Response × S) → S → CorsAnswer × S
  cors method next s =
      let (r, s') = next s in
      ite (dec_bytes method (codes "OPTIONS")) (with_cors none, s) (with_cors (some r), s')

  -- The handler of the server.
  unfoldable pub serve : Bytes → (S → Served × S) → S → CorsAnswer × S
  serve method routes s = cors method (recovery routes) s

  -- A preflight changes nothing. Any other request has an answer of the handler or of the recovery
  -- from its panic, with the state that the handler left.
  pub serve_lem :
      (method : Bytes) (routes : S → Served × S) (s : S)
      → (method ≡ codes "OPTIONS" → serve method routes s ≡ (with_cors none, s))
        × (method ≢ codes "OPTIONS"
            → serve method routes s ≡ (with_cors (some (recovered (routes s).0)), (routes s).1))
  unfolding serve cors recovery
  serve_lem method routes s = (
    λ h. if_pos (dec_bytes method (codes "OPTIONS")) h _ _,
    λ h. if_neg (dec_bytes method (codes "OPTIONS")) h _ _,
  )

-- `getStats`, with what the codec makes of the statistics, and `health`.
unfoldable pub get_stats : {A : Type 0} → (A → Option Bytes) → A → Response
get_stats encode stats = encoded (encode stats)

unfoldable pub health : Response
health = json_body 200 (codes "{\"status\":\"healthy\",\"service\":\"cache-server\"}")
