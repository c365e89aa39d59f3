-- ===== src/Config/Env.antt =====
-- internal/config/config.go. `os.Getenv` is a parameter that returns the empty text for a variable
-- that is not set, and so are the parsers of `strconv` and `time`.
use cache_server_go.Base.{
  Bool, true, false, Option, none, some, List, [], ◌∷◌, ◌++◌, Bytes, if◌then◌else◌, ◌==◌, codes, ℤ,
  pos,
}
use cache_server_go.Config.Utf8.{runes}

pub record Config : Type 0 where
  pub server_addr : Bytes
  pub server_port : ℤ
  pub grpc_port : ℤ
  pub l1_max_size : ℤ
  pub l1_ttl : ℤ
  pub redis_addrs : List Bytes
  pub redis_password : Bytes
  pub redis_pool_size : ℤ
  pub l2_ttl : ℤ
  pub origin_latency : ℤ
  pub minio_endpoint : Bytes
  pub minio_bucket : Bytes
  pub minio_access_key : Bytes
  pub minio_secret_key : Bytes
  pub enable_singleflight : Bool

-- `os.Getenv`, `strconv.Atoi`, `strconv.ParseBool` and `time.ParseDuration`, the last in
-- nanoseconds; `none` is an error.
pub record Environment : Type 0 where
  pub getenv : Bytes → Bytes
  pub atoi : Bytes → Option ℤ
  pub parse_bool : Bytes → Option Bool
  pub parse_duration : Bytes → Option ℤ

-- `if v != ""`, with what is done for a value that is set.
unfoldable pub if_set {ℓ} : {A : Type ℓ} → Bytes → A → (Bytes → A) → A
if_set [] fallback f = fallback
if_set (c ∷ cs) fallback f = f (c ∷ cs)

unfoldable pub or_fallback {ℓ} : {A : Type ℓ} → Option A → A → A
or_fallback none fallback = fallback
or_fallback (some a) fallback = a

-- `if current != "" { result = append(result, current) }`
unfoldable pub append_part : List Bytes → Bytes → List Bytes
append_part result [] = result
append_part result (x ∷ xs) = result ++ ((x ∷ xs) ∷ [])

-- `c == ','`, for the encoding of a code point.
abbrev pub is_comma : Bytes → Bool
is_comma [] = false
is_comma (c ∷ []) = c == b','
is_comma (c ∷ d ∷ cs) = false

-- The loop of `envSlice` over the code points, each as its `string(c)`, from the result and the
-- current part so far, and the append after it.
unfoldable pub slice_from : List Bytes → Bytes → List Bytes → List Bytes
unfolding append_part
slice_from result current [] = append_part result current
slice_from result current (c ∷ cs) =
    slice_from (if is_comma c then append_part result current else result)
      (if is_comma c then [] else current ++ c) cs

-- `if len(result) > 0 { return result }`
unfoldable pub if_any : List Bytes → List Bytes → List Bytes
if_any [] fallback = fallback
if_any (r ∷ rs) fallback = r ∷ rs

module _ (e : Environment) where
  open e use {getenv, atoi, parse_bool, parse_duration}

  unfoldable pub env_str : Bytes → Bytes → Bytes
  unfolding if_set
  env_str key fallback = if_set (getenv key) fallback (λ v. v)

  unfoldable pub env_int : Bytes → ℤ → ℤ
  unfolding if_set or_fallback
  env_int key fallback = if_set (getenv key) fallback (λ v. or_fallback (atoi v) fallback)

  unfoldable pub env_bool : Bytes → Bool → Bool
  unfolding if_set or_fallback
  env_bool key fallback = if_set (getenv key) fallback (λ v. or_fallback (parse_bool v) fallback)

  unfoldable pub env_duration : Bytes → ℤ → ℤ
  unfolding if_set or_fallback
  env_duration key fallback =
      if_set (getenv key) fallback (λ v. or_fallback (parse_duration v) fallback)

  unfoldable pub env_slice : Bytes → List Bytes → List Bytes
  unfolding if_set if_any
  env_slice key fallback =
      if_set (getenv key) fallback (λ v. if_any (slice_from [] [] (runes v)) fallback)

  -- `Load`
  unfoldable pub load : Config
  load = record {
    server_addr = env_str (codes "SERVER_ADDR") (codes "0.0.0.0");
    server_port = env_int (codes "SERVER_PORT") (pos 8080);
    grpc_port = env_int (codes "GRPC_PORT") (pos 9090);
    l1_max_size = env_int (codes "L1_MAX_SIZE") (pos 50_000);
    l1_ttl = env_duration (codes "L1_TTL") (pos 10_000_000_000);
    redis_addrs = env_slice (codes "REDIS_ADDRS") (codes "localhost:6379" ∷ []);
    redis_password = env_str (codes "REDIS_PASSWORD") [];
    redis_pool_size = env_int (codes "REDIS_POOL_SIZE") (pos 500);
    l2_ttl = env_duration (codes "L2_TTL") (pos 300_000_000_000);
    origin_latency = env_duration (codes "ORIGIN_LATENCY") (pos 10_000_000);
    minio_endpoint = env_str (codes "MINIO_ENDPOINT") (codes "minio:9000");
    minio_bucket = env_str (codes "MINIO_BUCKET") (codes "assets");
    minio_access_key = env_str (codes "MINIO_ACCESS_KEY") (codes "minioadmin");
    minio_secret_key = env_str (codes "MINIO_SECRET_KEY") (codes "minioadmin");
    enable_singleflight = env_bool (codes "ENABLE_SINGLEFLIGHT") true;
  }
