-- ===== src/L2/Reads.antt =====
-- What `MGet` of internal/cache/l2.go gives, against `Get` of each key in turn.
use cache_server_go.Base.{◌≡◌, ◌⊎◌, Option, none, some, List, [], ◌∷◌, map, Bytes}
use cache_server_go.Base.Maps.{Map, lookup, insert}
use cache_server_go.Metrics.{Metrics, add_l2_hit, add_l2_miss}
use cache_server_go.L2.{Outside, Reply, found, absent, Slot, nil, text, l2_get}

-- How Redis answers of a key that holds this value or none.
abbrev pub reply_of : Option Bytes → Reply
reply_of none = absent
reply_of (some v) = found v

abbrev pub slot_of : Option Bytes → Slot
slot_of none = nil
slot_of (some v) = text v

module _ (o : Outside) where
  open o use {World, redis_get, redis_mget}

  -- Redis holds the same values as long as only reads come, and answers both commands with them.
  pub record IsQuiet (holds : Bytes → Option Bytes) (Quiet : World → Type 0) : Type 0 where
    pub get_reply : (k : Bytes) (w : World) → Quiet w → (redis_get k w).0 ≡ reply_of (holds k)
    pub get_quiet : (k : Bytes) (w : World) → Quiet w → Quiet (redis_get k w).1
    pub mget_reply :
        (ks : List Bytes) (w : World)
        → Quiet w
        → (redis_mget ks w).0 ≡ some (map (λ k. slot_of (holds k)) ks)

  -- `Get` of each key in turn: the answers and the metrics.
  abbrev pub l2_gets : List Bytes → Metrics → World → List (Bytes × Option Bytes) × Metrics
  l2_gets [] m w = ([], m)
  l2_gets (k ∷ ks) m w =
      let r = l2_get o k m w in
      let (answers, m') = l2_gets ks r.metrics r.world in ((k, r.value) ∷ answers, m')

  abbrev count : Option Bytes → Metrics → Metrics
  count none m = add_l2_miss m
  count (some v) m = add_l2_hit m

  module _ (holds : Bytes → Option Bytes) where
    abbrev counts : List Bytes → Metrics → Metrics
    counts [] m = m
    counts (k ∷ ks) m = counts ks (count (holds k) m)

    abbrev fill : Bytes → Option Bytes → Map Bytes → Map Bytes
    fill k none r = r
    fill k (some v) r = insert k v r

    abbrev filled : List Bytes → Map Bytes → Map Bytes
    filled [] r = r
    filled (k ∷ ks) r = filled ks (fill k (holds k) r)

    -- A key that is asked for gets what Redis holds, if it had nothing else before.
    abbrev Agrees : Bytes → Map Bytes → Type 0
    Agrees q r = (lookup q r ≡ none) ⊎ (lookup q r ≡ holds q)
