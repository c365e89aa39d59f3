-- ===== src/Assets/Reports.antt =====
-- `getMeta` and `listAssets` of internal/binaryhandler/handler.go, over the answers of Redis.
use cache_server_go.Base.{
  ℕ, Bool, true, false, Option, none, some, List, [], ◌∷◌, ◌++◌, Bytes, codes, length,
}
use cache_server_go.Base.Maps.{Map, lookup}
use cache_server_go.Scripts.Decimal.{digits}

-- What a handler writes: by `http.Error`, or a text with the type of JSON.
pub data Report : Type 0 where
  report_error : Bytes → ℕ → Report
  json_text : Bytes → Report

-- `result[name]` of a Go map of strings.
unfoldable pub field : Bytes → Map Bytes → Bytes
field name m = elim (lookup name m) [ none ↦ [] | some v ↦ v ]

abbrev no_backend : Report
no_backend = report_error (codes "{\"error\":\"metadata backend unavailable\"}") 503

abbrev meta_text : Bytes → Map Bytes → Bytes
meta_text key result =
    codes "{\"key\":\""
    ++ (key
        ++ (codes "\",\"content_type\":\""
            ++ (field (codes "content_type") result
                ++ (codes "\",\"size\":"
                    ++ (field (codes "size") result
                        ++ (codes ",\"url\":\""
                            ++ (field (codes "url") result
                                ++ (codes "\",\"uploaded_at\":"
                                    ++ (field (codes "uploaded_at") result ++ codes "}")))))))))

-- `getMeta`, with whether there is a client of Redis, and the answer of `HGetAll`; `none` is an
-- error.
unfoldable pub get_meta : Bool → Bytes → Option (Map Bytes) → Report
get_meta false key result = no_backend
get_meta true [] result = report_error (codes "{\"error\":\"key required\"}") 400
get_meta true (b ∷ bs) none = report_error (codes "{\"error\":\"not found\"}") 404
get_meta true (b ∷ bs) (some []) = report_error (codes "{\"error\":\"not found\"}") 404
get_meta true (b ∷ bs) (some (x ∷ xs)) = json_text (meta_text (b ∷ bs) (x ∷ xs))

-- The loop of `listAssets` after the first key, and from the first.
unfoldable pub listed_after : List Bytes → Bytes
listed_after [] = []
listed_after (key ∷ keys) = codes ",\"" ++ (key ++ (codes "\"" ++ listed_after keys))

unfoldable pub listed : List Bytes → Bytes
listed [] = []
listed (key ∷ keys) = codes "\"" ++ (key ++ (codes "\"" ++ listed_after keys))

-- `listAssets`, with the answer of `SMembers`.
unfoldable pub list_assets : Bool → Option (List Bytes) → Report
list_assets false keys = no_backend
list_assets true none = report_error (codes "{\"error\":\"failed to list\"}") 500
list_assets true (some keys) = json_text (
    codes "{\"count\":"
    ++ (digits (length keys) ++ (codes ",\"assets\":[" ++ (listed keys ++ codes "]}"))))
