-- ===== src/Tests/Server.antt =====
-- The start of the server: a run where only the Redis on `localhost` answers, and an instance.
use cache_server_go.Base.{◌≡◌, refl, Bool, true, false, ℤ, dec_bytes, ℕ_discrete}
use cache_server_go.Config.Utf8.{runes_from, decode, rest_of, continued}
use cache_server_go.Config.Env.{
  load, env_slice, env_str, env_int, env_bool, env_duration, if_set, if_any, append_part,
  slice_from, or_fallback,
}
use cache_server_go.Server.Start.{
  Client, cluster, single, serving, start, new_l2, connect, client_of, after_first, after_retry,
  must_create_fallback_l2, with_l2,
}
use cache_server_go.Server.Redis.{local, IsStart, start-load}
use cache_server_go.Tests.Config.{env}

-- One node answers, a cluster does not; the configuration names a cluster.
abbrev ping : Client → Unit {0} → Bool × Unit {0}
ping (cluster addrs password pool_size) w = (false, w)
ping (single addr password pool_size) w = (true, w)

abbrev start_grpc : ℤ → Unit {0} → Bool × Unit {0}
start_grpc port w = (true, w)

fallback : start ping start_grpc (load env) tt ≡ serving local
unfolding runes_from decode rest_of continued start new_l2 connect client_of after_first
    must_create_fallback_l2 after_retry with_l2 load env_slice env_str env_int env_bool env_duration
    if_set if_any append_part slice_from or_fallback dec_bytes ℕ_discrete
fallback = refl

start-load_example : IsStart ping start_grpc (load env) (start ping start_grpc (load env) tt)
start-load_example = start-load ping start_grpc env tt
