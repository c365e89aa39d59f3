-- ===== src/Lib.antt =====
-- A verification library for the cache server: a two-tier HTTP and gRPC cache written in Go
-- (internal/), and the sample scripts that its load tests serve (sample-assets-small/).
--
-- A request to `Manager` (internal/cache/manager.go) asks the in-process cache L1, then Redis (L2),
-- then the origin, and fills the tiers above the one that answered; every step counts in the global
-- metrics. Binary assets have a cache of their own, bounded by bytes. `Load` reads the configuration.
--
-- The parts and the files that model them.
--
--   Base      shared names; byte strings, Go maps, wrapping words and integers.
--   Metrics   internal/metrics/metrics.go: `Metrics` is the record of counters, each a 64-bit
--             pattern; `Metrics.Snapshot.snapshot` is `Snapshot`, over a floating-point type that is
--             a parameter.
--   L1        internal/cache/l1.go. `L1.Shard.Shard` is `l1Shard`, with its operations `evict_one`
--             and `set_shard` (`Set` under the lock); `L1.Cache.L1Cache` is `L1Cache`, with
--             `new_l1`, `get`, `set`, `delete`, `stats` and `shard_index` (`getShard`). A call takes
--             the time that it reads from the clock, in nanoseconds, and returns the new state.
--             `L1.Run` runs sequences of calls beside an ideal cache. `L1.Race` splits `Get` where
--             its locks do.
--   Assets    internal/binaryhandler/handler.go, `assetCache`: `Assets.Cache` has `get`, `set` and
--             `remove`, and the parts of `set`: `forget_old`, `make_space` (the eviction loop),
--             `oldest` (its inner loop), `evict` and `put`. `Assets.Handlers` has `upload`,
--             `serve_asset` and `delete_asset` of `BinaryHandler`, and `detect_content_type`, over
--             `Storage`: MinIO, Redis and the clock. `Assets.History` runs sequences of calls of the
--             cache. `Assets.Reports` has `get_meta` and `list_assets`.
--             `Assets.Listing` reads the second one's answer back.
--   L2        internal/cache/l2.go: `l2_get`, `l2_set` and `l2_delete` are `Get`, `Set` and
--             `Delete` of `L2Cache`; `L2.Batch` has `mget` and `mset`. `Outside` collects what a
--             request reaches outside the process.
--   Origin    internal/origin/origin.go: `new_simulated` and `fetch` are `NewSimulated` and `Fetch` of
--             `SimulatedOrigin`. The manager takes any origin.
--   Manager   internal/cache/manager.go: `Manager.Store` has `get`, `set`, `invalidate` and
--             `fetch_from_origin`, and `back_populate`, the write of a background goroutine. They
--             take and return `State`: L1, the metrics, the writes not yet made, and the world.
--             `Manager.Report` has `Stats`.
--   Grpc      internal/grpcserver/server.go: `Grpc.Service` has the methods `get`, `set`, `delete`,
--             `batch_get` and `batch_set` of `CacheServer`, and `metrics_interceptor`. An `int32`
--             count is a 32-bit pattern. `Grpc.Status` has `Stats` and `Health`.
--   Http      internal/handler/handler.go: `Http.Handlers` has `get_cache`, `put_cache`,
--             `delete_cache` and `batch_get`. A handler takes the decoded body and returns what it
--             writes; the JSON codec is a parameter. `Http.Middleware` has the middleware, `getStats`
--             and `health`.
--   Concurrent
--             the goroutines of internal/cache/manager.go at the same time. `Move` is a step of one
--             goroutine in `Get`, `Set` or `Invalidate`, with the places between in `Pc`: what runs
--             under one lock, one call of Redis, of the origin or of the group, or one round of atomic
--             additions. `System` is any number of them; `Step` picks one, or a background write, or
--             lets the world outside drift; `Runs` is any sequence of steps, and `IsAlone` says that all
--             of them are moves of one goroutine.
--   Config    internal/config/config.go: `Config.Env` has `load` and the readers of variables.
--             `Config.Utf8` is what `range` and `string(c)` make of a text, with U+FFFD for what is
--             not UTF-8.
--   Server    cmd/server/main.go: `Server.Start` has `start` (`main` from `NewL2` on), `new_l2` and
--             `must_create_fallback_l2`, over the pings of Redis.
--   Scripts   sample-assets-small/script-0000.js to script-0029.js, one row of `Scripts.Tables` for
--             each line; `Scripts.Page` loads them into one page and `Scripts.Calls` calls their
--             functions by name. JavaScript's numbers are a parameter.
--   Tests     runs at concrete inputs, and each theorem applied at one.
--
-- How the model stands to the code. A Go map is an association list in which the first entry of a
-- key counts. An operation under a lock is one step. Times and durations are natural numbers of
-- nanoseconds: a negative TTL is not modelled. The array of 256 shards is a function of the index.
-- Log lines are left out, and an error is `none` or `false`.
--
-- A shard is valid (`IsValid` in L1/Evict.antt) if its bound is positive and holds, its cursor is inside
-- the ring, and every stored key is in the ring. An asset cache is accounted (`IsAccounted` in
-- Assets/Writes.antt) if no stored key is empty or double and `cur_bytes` is the number of bytes held.
--
-- Parameters. The order in which `range` meets the entries of a map (`order`, another one in every
-- round, with `IsRange` for what Go promises); go-redis, the origin, the clock and singleflight
-- (`Outside`); in Concurrent, also what Redis may hold (`Redis`: the manager's
-- writes and what was there before, since no other process sets keys) and a table of the calls of
-- singleflight, with what its documentation promises (`Group`, `GroupLaws`); MinIO (`Storage`); the lower-case
-- extension of a file name; `os.Getenv`, `strconv` and `time.ParseDuration` (`Environment`); the pings
-- of Redis and the start of gRPC (`Server`).
--
-- Loops. The eviction loop of L1 runs for the length of the ring, as in the code. The eviction loop of
-- the asset cache has as fuel one round for each entry and one for the last test: where no stored key is
-- empty every round takes out an entry, so it is enough. All other loops are structural.
--
-- Not modelled: the setup of other clients and routes, log lines, and the transport of gRPC. A step of
-- Concurrent that goes through several counters or through one lock is not split. Left out: the
-- listening and the shutdown of the server, the load-test programs, and the configuration files of the
-- proxies and of the deployment.
pub mod Base
pub mod Metrics
pub mod L1
pub mod Assets
pub mod L2
pub mod Origin
pub mod Manager
pub mod Grpc
pub mod Http
pub mod Concurrent
pub mod Config
pub mod Server
pub mod Scripts
pub mod Tests
