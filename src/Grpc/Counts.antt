-- ===== src/Grpc/Counts.antt =====
-- How the counters of requests move under the gRPC service.
use cache_server_go.Base.{ℕ, ◌+◌, ◌≡◌, refl, [], ◌∷◌, List, Bytes, arith, add64, ap, ◌∙◌, length}
use cache_server_go.Metrics.{record_latency}
use cache_server_go.L2.{Outside}
use cache_server_go.Manager.Store as Manager
use cache_server_go.Manager.Store.{Settings, State}
use cache_server_go.Manager.Requests.{get-total_requests}
use cache_server_go.Grpc.Service.{
  get, metrics_interceptor, BatchGetResponse, add_answer, batch_get_from, batch_get,
}

add64-add64 : (a b c : ℕ) → add64 (add64 a b) c ≡ add64 a (b + c)
add64-add64 a b c = omega arith

-- The requests that a gRPC `Get` counts by itself: none for an empty key, which it refuses.
abbrev pub counted : Bytes → ℕ
counted [] = 0
counted (b ∷ bs) = 1

module _ (o : Outside) (settings : Settings) where
  -- A gRPC `Get` behind the interceptor counts two requests, one of them by the manager; with an empty
  -- key it counts one.
  pub metrics_interceptor-get :
      (key : Bytes) (s : State o settings)
      → (metrics_interceptor o settings (get o settings key) s).1.metrics.total_requests
        ≡ add64 s.metrics.total_requests (counted key + 1)
  unfolding metrics_interceptor record_latency get
  metrics_interceptor-get [] s = refl
  metrics_interceptor-get (b ∷ bs) s =
      ap (λ n. add64 n 1) (get-total_requests o settings (b ∷ bs) s)
      ∙ add64-add64 s.metrics.total_requests 1 1

  batch_get_from-total :
      (keys : List Bytes) (r : BatchGetResponse) (s : State o settings)
      → add64 (batch_get_from o settings keys r s).1.metrics.total_requests 1
        ≡ add64 s.metrics.total_requests (length keys + 1)
  unfolding batch_get_from
  batch_get_from-total [] r s = refl
  batch_get_from-total (key ∷ keys) r s =
      let g = Manager.get o settings key s in
      batch_get_from-total keys (add_answer o settings key g.value r) g.state
      ∙ ap (λ n. add64 n (length keys + 1)) (get-total_requests o settings key s)
      ∙ add64-add64 s.metrics.total_requests 1 (length keys + 1)
      ∙ ap (λ n. add64 s.metrics.total_requests n) (omega arith)

  -- A `BatchGet` behind the interceptor counts one request for each key, empty or not, and one more.
  pub metrics_interceptor-batch_get :
      (keys : List Bytes) (s : State o settings)
      → (metrics_interceptor o settings (batch_get o settings keys) s).1.metrics.total_requests
        ≡ add64 s.metrics.total_requests (length keys + 1)
  unfolding metrics_interceptor record_latency batch_get
  metrics_interceptor-batch_get keys s =
      batch_get_from-total keys (record { entries = []; hits = 0; misses = 0 }) s
