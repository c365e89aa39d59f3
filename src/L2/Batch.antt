-- ===== src/L2/Batch.antt =====
-- `MGet` and `MSet` of internal/cache/l2.go.
use cache_server_go.Base.{ℕ, Bool, none, some, List, [], ◌∷◌, Bytes}
use cache_server_go.Base.Maps.{Map, insert}
use cache_server_go.Metrics.{Metrics, add_l2_hit, add_l2_miss}
use cache_server_go.L2.{Outside, Slot, nil, text, other}

-- `MGet` returns a map or an error, or indexes `keys` out of range.
pub data Outcome : Type 0 where
  batch : Map Bytes → Outcome
  refused : Outcome
  faulted : Outcome

-- The loop over the slots; `keys` are those from the index on.
unfoldable pub mget_from : List Bytes → List Slot → Map Bytes → Metrics → Outcome × Metrics
mget_from keys [] results m = (batch results, m)
mget_from [] (nil ∷ slots) results m = mget_from [] slots results (add_l2_miss m)
mget_from [] (other ∷ slots) results m = mget_from [] slots results m
mget_from [] (text v ∷ slots) results m = (faulted, m)
mget_from (key ∷ keys) (nil ∷ slots) results m = mget_from keys slots results (add_l2_miss m)
mget_from (key ∷ keys) (other ∷ slots) results m = mget_from keys slots results m
mget_from (key ∷ keys) (text v ∷ slots) results m =
    mget_from keys slots (insert key v results) (add_l2_hit m)

-- The commands of the pipeline of `MSet`, in the order in which `range` meets the items.
unfoldable pub pipe_from : Map Bytes → ℕ → List (Bytes × Bytes × ℕ)
pipe_from [] ttl = []
pipe_from ((key, v) ∷ items) ttl = (key, v, ttl) ∷ pipe_from items ttl

module _ (o : Outside) where
  open o use {World, redis_mget, redis_exec}

  pub record MGetResult : Type 0 where
    pub outcome : Outcome
    pub metrics : Metrics
    pub world : World

  unfoldable pub mget : List Bytes → Metrics → World → MGetResult
  mget keys m w =
      let (reply, w') = redis_mget keys w in
      elim reply [
        | none ↦ record { outcome = refused; metrics = m; world = w' }
        | some slots ↦
            let (outcome, m') = mget_from keys slots [] m in
            record { outcome = outcome; metrics = m'; world = w' }
      ]

  unfoldable pub mset : Map Bytes → ℕ → World → Bool × World
  mset items ttl w = redis_exec (pipe_from items ttl) w
