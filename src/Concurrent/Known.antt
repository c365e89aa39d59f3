-- ===== src/Concurrent/Known.antt =====
-- Where the answers of concurrent requests come from.
use mathlib.Core.Option.{some-injective}
use cache_server_go.Base.{
  ℕ, zero, suc, ◌≡◌, refl, ◌⊎◌, inl, inr, Option, none, some, List, [], ◌∷◌, ◌++◌, Bytes, InList,
}
use cache_server_go.L1.Shard.{Entry, read}
use cache_server_go.L1.Cache.{shard_of}
use cache_server_go.L1.Valid.{AllValid}
use cache_server_go.L2.{Outside}
use cache_server_go.Manager.Store.{Settings}
use cache_server_go.Concurrent.Group.{Group}
use cache_server_go.Concurrent.Moves.{
  Shared, Pc, idle, getting, looked, missed, l2_hit, l2_missed, leading, fetched, ran, waiting,
  answering, answered, setting, l1_set, deleting, l1_deleted, returned,
}
use cache_server_go.Concurrent.System.{Redis}

-- The pair was set by a client or given by the origin.
abbrev pub Known : List (Bytes × Bytes) → Bytes → Bytes → Type 0
Known l k v = InList (k, v) l

abbrev pub Grows : List (Bytes × Bytes) → List (Bytes × Bytes) → Type 0
Grows l l' = (k v : Bytes) → Known l k v → Known l' k v

-- If there is a value, it is known.
abbrev pub KnownAnswer : List (Bytes × Bytes) → Bytes → Option Bytes → Type 0
KnownAnswer l k none = Unit
KnownAnswer l k (some v) = Known l k v

pub Grows-cons : (x : Bytes × Bytes) (l : List (Bytes × Bytes)) → Grows l (x ∷ l)
Grows-cons x l k v (i, e) = (suc i, e)

KnownAnswer-Grows :
    (l l' : List (Bytes × Bytes)) (k : Bytes) (r : Option Bytes)
    → Grows l l'
    → KnownAnswer l k r
    → KnownAnswer l' k r
KnownAnswer-Grows l l' k none up h = tt
KnownAnswer-Grows l l' k (some v) up h = up k v h

pub InList-append :
    (x y : Bytes × Bytes) (l : List (Bytes × Bytes))
    → InList x (l ++ (y ∷ []))
    → InList x l ⊎ (y ≡ x)
InList-append x y [] (zero, e) = inr (some-injective _ _ e)
InList-append x y [] (suc i, e) = absurd (cc)
InList-append x y (z ∷ l) (zero, e) = inl (zero, e)
InList-append x y (z ∷ l) (suc i, e) = elim (InList-append x y l (i, e)) [
  | inl (j, f) ↦ inl (suc j, f)
  | inr same ↦ inr same
]

pub InList-middle :
    (x : Bytes × Bytes) (before after : List (Bytes × Bytes)) → InList x (before ++ (x ∷ after))
InList-middle x [] after = (zero, refl)
InList-middle x (z ∷ before) after = let (i, e) = InList-middle x before after in (suc i, e)

pub InList-wider :
    (x y : Bytes × Bytes) (before after : List (Bytes × Bytes))
    → InList x (before ++ after)
    → InList x (before ++ (y ∷ after))
InList-wider x y [] after (i, e) = (suc i, e)
InList-wider x y (z ∷ before) after (zero, e) = (zero, e)
InList-wider x y (z ∷ before) after (suc i, e) =
    let (j, f) = InList-wider x y before after (i, e) in (suc j, f)

module _ (o : Outside) (g : Group) (settings : Settings) (d : Redis o) where
  open o use {now, redis_get, redis_set, redis_del, fetch}
  open g use {Ticket, key_of, result}
  open d use {Holds}

  abbrev pub OfKey : Bytes → Option Ticket → Type 0
  OfKey key none = Unit
  OfKey key (some n) = key_of n ≡ key

  -- What a goroutine has in hand is known, and its ticket is one of its key.
  abbrev pub InHand : List (Bytes × Bytes) → Pc o g settings → Type 0
  InHand l idle = Unit
  InHand l (getting key start) = Unit
  InHand l (looked key start none) = Unit
  InHand l (looked key start (some e)) = Known l key e.value
  InHand l (missed key start) = Unit
  InHand l (l2_hit key start v) = Known l key v
  InHand l (l2_missed key start) = Unit
  InHand l (leading key start n) = OfKey key n
  InHand l (fetched key start n v) = OfKey key n × Known l key v
  InHand l (ran key start n r) = OfKey key n × KnownAnswer l key r
  InHand l (waiting key start n) = key_of n ≡ key
  InHand l (answering key start r) = KnownAnswer l key r
  InHand l (answered key r) = KnownAnswer l key r
  InHand l (setting key v) = Known l key v
  InHand l (l1_set key v) = Known l key v
  InHand l (deleting key) = Unit
  InHand l (l1_deleted key) = Unit
  InHand l (returned b) = Unit

  -- What is stored anywhere is known.
  pub record AllKnown (bound : ℕ) (m : Shared o g settings) : Type 0 where
    pub valid : AllValid bound m.l1
    pub cached :
        (k : Bytes) (e : Entry) → read k (shard_of k m.l1) ≡ some e → Known m.origins k e.value
    pub written : (k v : Bytes) → InList (k, v) m.writes → Known m.origins k v
    pub held : (k v : Bytes) → Holds m.world k v → Known m.origins k v
    pub results :
        (n : Ticket) (v : Bytes) → result n m.table ≡ some (some v) → Known m.origins (key_of n) v

  pub InHand-Grows :
      (l l' : List (Bytes × Bytes)) (p : Pc o g settings) → Grows l l' → InHand l p → InHand l' p
  InHand-Grows l l' idle up h = tt
  InHand-Grows l l' (getting key start) up h = tt
  InHand-Grows l l' (looked key start none) up h = tt
  InHand-Grows l l' (looked key start (some e)) up h = up key e.value h
  InHand-Grows l l' (missed key start) up h = tt
  InHand-Grows l l' (l2_hit key start v) up h = up key v h
  InHand-Grows l l' (l2_missed key start) up h = tt
  InHand-Grows l l' (leading key start n) up h = h
  InHand-Grows l l' (fetched key start n v) up h = (h.0, up key v h.1)
  InHand-Grows l l' (ran key start n r) up h = (h.0, KnownAnswer-Grows l l' key r up h.1)
  InHand-Grows l l' (waiting key start n) up h = h
  InHand-Grows l l' (answering key start r) up h = KnownAnswer-Grows l l' key r up h
  InHand-Grows l l' (answered key r) up h = KnownAnswer-Grows l l' key r up h
  InHand-Grows l l' (setting key v) up h = up key v h
  InHand-Grows l l' (l1_set key v) up h = up key v h
  InHand-Grows l l' (deleting key) up h = tt
  InHand-Grows l l' (l1_deleted key) up h = tt
  InHand-Grows l l' (returned b) up h = tt
