-- ===== src/Grpc/Service.antt =====
-- `CacheServer` of internal/grpcserver/server.go over the manager, with its request and response types
-- of api/cachepb, and `metricsInterceptor`. `Stats` and `Health` are in Grpc/Status.antt.
use cache_server_go.Base.{
  ℕ, Bool, true, false, not, Option, none, some, List, [], ◌∷◌, Bytes, add32, sub64,
}
use cache_server_go.Base.Maps.{Map, insert}
use cache_server_go.Metrics.{record_latency}
use cache_server_go.L2.{Outside}
use cache_server_go.Manager.Store as Manager
use cache_server_go.Manager.Store.{Settings, State}

-- `CacheHitSource`, with the zero of Go first.
pub data Source : Type 0 where
  unspecified : Source
  from_l1 : Source
  from_l2 : Source
  from_origin : Source

pub record GetResponse : Type 0 where
  pub value : Bytes
  pub source : Source
  pub latency_ns : ℕ

-- A value that Go leaves nil is the empty text.
pub record CacheEntry : Type 0 where
  pub value : Bytes
  pub source : Source
  pub is_found : Bool

pub record BatchGetResponse : Type 0 where
  pub entries : Map CacheEntry
  pub hits : ℕ
  pub misses : ℕ

pub record BatchSetResponse : Type 0 where
  pub success_count : ℕ
  pub error_count : ℕ

-- What a method returns: a response, if any, and whether the error is not nil.
pub record Replied (A : Type 0) : Type 0 where
  pub response : Option A
  pub is_error : Bool

-- The entry for a result of the manager.
unfoldable pub entry_of : Option Bytes → CacheEntry
entry_of none = record { value = []; source = unspecified; is_found = false }
entry_of (some val) = record { value = val; source = unspecified; is_found = true }

module _ (o : Outside) (settings : Settings) where
  open o use {now}

  -- The response to a result of the manager that took `latency_ns`.
  unfoldable pub get_reply : Option Bytes → ℕ → Replied GetResponse
  get_reply none latency_ns = record { response = none; is_error = true }
  get_reply (some val) latency_ns = record {
    response = some (record { value = val; source = from_l1; latency_ns = latency_ns });
    is_error = false;
  }

  -- `Get`
  unfoldable pub get : Bytes → State o settings → Replied GetResponse × State o settings
  get [] s = (record { response = none; is_error = true }, s)
  get (b ∷ bs) s =
      let r = Manager.get o settings (b ∷ bs) s in
      (get_reply r.value (sub64 (now (r.state).world) (now s.world)), r.state)

  -- `Set`; the response says whether Redis took the write.
  unfoldable pub set : Bytes → Bytes → State o settings → Replied Bool × State o settings
  set [] value s = (record { response = none; is_error = true }, s)
  set (b ∷ bs) value s =
      let (done, s') = Manager.set o settings (b ∷ bs) value s in
      (record { response = some done; is_error = not done }, s')

  -- `Delete`
  unfoldable pub delete : Bytes → State o settings → Replied Bool × State o settings
  delete [] s = (record { response = none; is_error = true }, s)
  delete (b ∷ bs) s =
      let (done, s') = Manager.invalidate o settings (b ∷ bs) s in
      (record { response = some done; is_error = not done }, s')

  -- What one round of `BatchGet` adds to the response.
  unfoldable pub add_answer : Bytes → Option Bytes → BatchGetResponse → BatchGetResponse
  unfolding entry_of
  add_answer key none r = record {
    entries = insert key (entry_of none) r.entries;
    hits = r.hits;
    misses = add32 r.misses 1;
  }
  add_answer key (some val) r = record {
    entries = insert key (entry_of (some val)) r.entries;
    hits = add32 r.hits 1;
    misses = r.misses;
  }

  -- The loop of `BatchGet`, from the response so far.
  unfoldable pub batch_get_from :
      List Bytes → BatchGetResponse → State o settings → BatchGetResponse × State o settings
  batch_get_from [] r s = (r, s)
  batch_get_from (key ∷ keys) r s =
      let g = Manager.get o settings key s in batch_get_from keys (add_answer key g.value r) g.state

  -- `BatchGet`
  unfoldable pub batch_get : List Bytes → State o settings → BatchGetResponse × State o settings
  batch_get keys s = batch_get_from keys (record { entries = []; hits = 0; misses = 0 }) s

  unfoldable pub add_written : Bool → BatchSetResponse → BatchSetResponse
  add_written true r = record r { success_count = add32 r.success_count 1 }
  add_written false r = record r { error_count = add32 r.error_count 1 }

  -- The loop of `BatchSet`, from the counts so far.
  unfoldable pub batch_set_from :
      List (Bytes × Bytes)
      → BatchSetResponse
      → State o settings
      → BatchSetResponse × State o settings
  batch_set_from [] r s = (r, s)
  batch_set_from ((key, value) ∷ entries) r s =
      let (done, s') = Manager.set o settings key value s in
      batch_set_from entries (add_written done r) s'

  -- `BatchSet`
  unfoldable pub batch_set :
      List (Bytes × Bytes) → State o settings → BatchSetResponse × State o settings
  batch_set entries s = batch_set_from entries (record { success_count = 0; error_count = 0 }) s

  -- `metricsInterceptor` around a handler.
  unfoldable pub metrics_interceptor :
      {A : Type 0}
      → (State o settings → A × State o settings)
      → State o settings
      → A × State o settings
  metrics_interceptor handler s =
      let (resp, s') = handler s in
      (resp, record s' { metrics = record_latency (sub64 (now s'.world) (now s.world)) s'.metrics })
