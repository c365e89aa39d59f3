-- ===== src/Server/Start.antt =====
-- `main` and `mustCreateFallbackL2` of cmd/server/main.go and `NewL2` of internal/cache/l2.go. The
-- answer of Redis to a `Ping` and the start of gRPC are parameters. Log lines, timeouts and what
-- cannot fail are left out.
use cache_server_go.Base.{
  Bool, Option, none, some, List, [], ◌∷◌, Bytes, codes, ℤ, pos, if◌then◌else◌,
}
use cache_server_go.Config.Env.{Config}

-- A client of go-redis: of a cluster or of one node, with its password and pool size.
pub data Client : Type 0 where
  cluster : List Bytes → Bytes → ℤ → Client
  single : Bytes → Bytes → ℤ → Client

-- The client that `NewL2` makes; `none` is `addrs[0]` out of range.
unfoldable pub client_of : List Bytes → Bytes → ℤ → Option Client
client_of [] password pool_size = none
client_of (a ∷ []) password pool_size = some (single a password pool_size)
client_of (a ∷ b ∷ addrs) password pool_size = some (cluster (a ∷ b ∷ addrs) password pool_size)

-- `NewL2` gives a cache over its client, or nil with an error, or panics.
pub data NewL2 : Type 0 where
  connected : Client → NewL2
  no_ping : NewL2
  bad_index : NewL2

-- `main` serves, exits with status 1, or panics: in `NewL2`, or in `l2.Client()` of a nil pointer.
pub data Started : Type 0 where
  serving : Client → Started
  exited : Started
  index_panic : Started
  nil_panic : Started

module _ {W : Type 0} (ping : Client → W → Bool × W) (start_grpc : ℤ → W → Bool × W) where
  unfoldable pub connect : Option Client → W → NewL2 × W
  connect none w = (bad_index, w)
  connect (some c) w =
      let (answers, w') = ping c w in (if answers then connected c else no_ping, w')

  unfoldable pub new_l2 : List Bytes → Bytes → ℤ → W → NewL2 × W
  new_l2 addrs password pool_size w = connect (client_of addrs password pool_size) w

  -- `mustCreateFallbackL2` after its first `NewL2`; the error of its second is dropped.
  unfoldable pub after_retry : NewL2 → W → NewL2 × W
  after_retry (connected c) w = (connected c, w)
  after_retry no_ping w = new_l2 (codes "localhost:6379" ∷ []) [] (pos 1) w
  after_retry bad_index w = (bad_index, w)

  unfoldable pub must_create_fallback_l2 : Config → W → NewL2 × W
  must_create_fallback_l2 cfg w =
      let (r, w') = new_l2 cfg.redis_addrs cfg.redis_password cfg.redis_pool_size w in
      after_retry r w'

  -- `main` from gRPC on, with the pointer that it has for L2.
  unfoldable pub with_l2 : Config → NewL2 → W → Started
  with_l2 cfg (connected c) w = if (start_grpc cfg.grpc_port w).0 then serving c else exited
  with_l2 cfg no_ping w = if (start_grpc cfg.grpc_port w).0 then nil_panic else exited
  with_l2 cfg bad_index w = index_panic

  unfoldable pub after_first : Config → NewL2 → W → Started
  after_first cfg (connected c) w = with_l2 cfg (connected c) w
  after_first cfg no_ping w = let (r, w') = must_create_fallback_l2 cfg w in with_l2 cfg r w'
  after_first cfg bad_index w = index_panic

  unfoldable pub start : Config → W → Started
  start cfg w =
      let (r, w') = new_l2 cfg.redis_addrs cfg.redis_password cfg.redis_pool_size w in
      after_first cfg r w'
