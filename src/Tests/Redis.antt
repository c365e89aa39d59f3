-- ===== src/Tests/Redis.antt =====
-- `MGet` and `MSet`: runs and instances, in a world whose Redis keeps what it is given.
use cache_server_go.Base.{◌≡◌, refl, List, Option, [], ◌∷◌, Bytes, codes, dec_bytes, ℕ_discrete}
use cache_server_go.Base.Maps.{Map, lookup, insert}
use cache_server_go.Metrics.{fresh}
use cache_server_go.L2.Batch.{batch, mget, mget_from, mset, pipe_from}
use cache_server_go.Tests.Manager.{k1, v1, world}

abbrev k2 : Bytes
k2 = codes "k2"

abbrev stored : Map Bytes
stored = (mset world ((k1, v1) ∷ []) 300 []).1

stored_one : stored ≡ (k1, v1) ∷ []
unfolding mset pipe_from insert
stored_one = refl

abbrev keys : List Bytes
keys = k1 ∷ k2 ∷ k1 ∷ []

-- A key may be asked for twice, and one that Redis does not hold counts as a miss.
asked : ((mget world keys fresh stored).outcome ≡ batch ((k1, v1) ∷ []))
unfolding mget mget_from mset pipe_from insert lookup dec_bytes ℕ_discrete
asked = refl

abbrev holds : Bytes → Option Bytes
holds k = lookup k stored
