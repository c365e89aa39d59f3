-- ===== src/Assets/History.antt =====
-- Sequences of calls of `assetCache` of internal/binaryhandler/handler.go.
use cache_server_go.Base.{
  ℕ, ◌+◌, ◌≡◌, refl, inl, inr, false, Option, none, some, List, [], ◌∷◌, Bytes, length, pos, ◌+ℤ◌,
  Option-cases, All,
}
use cache_server_go.Base.Maps.{Map, lookup, sum_by}
use cache_server_go.Assets.Cache as Cache
use cache_server_go.Assets.Cache.{
  CachedAsset, AssetCache, IsRange, is_empty, new_asset_cache, remove, put, forget_old,
}
use cache_server_go.Assets.Budget.{held, Owes, delete-Owes}
use cache_server_go.Assets.Laws.{set_new_owing, set_over_owing}

pub data AssetCall : Type 0 where
  get_call : Bytes → AssetCall
  set_call : Bytes → CachedAsset → AssetCall
  remove_call : Bytes → AssetCall

-- `set` is called with a key.
abbrev pub IsNamed : AssetCall → Type 0
IsNamed (set_call key asset) = is_empty key ≡ false
IsNamed _ = Unit

module _ (orders : ℕ → ℕ → Map CachedAsset → Map CachedAsset) where
  -- One call; `n` numbers it, for its iteration orders.
  unfoldable pub asset_step : ℕ → AssetCall → AssetCache → Option AssetCache
  asset_step n (get_call key) c = some (Cache.get key c).0
  asset_step n (set_call key asset) c = Cache.set (orders n) key asset c
  asset_step n (remove_call key) c = some (remove key c)

  unfoldable pub run_assets : List AssetCall → AssetCache → Option AssetCache
  run_assets [] c = some c
  run_assets (call ∷ calls) c = elim (asset_step (length calls) call c) [
    | none ↦ none
    | some c' ↦ run_assets calls c'
  ]

-- The books are those of a cache that counts `debt` bytes too few.
record Short (c : AssetCache) : Type 0 where
  debt : ℕ
  owes : Owes debt c

-- A call that returns leaves such a cache.
record Returns (r : Option AssetCache) : Type 0 where
  after : AssetCache
  returns : r ≡ some after
  short : Short after

get-Owes : (debt : ℕ) (key : Bytes) (c : AssetCache) → Owes debt c → Owes debt (Cache.get key c).0
unfolding Cache.get
get-Owes debt key c o = elim (Option-cases (lookup key c.items)) [
  | inl missing ↦
      rw (missing, Cache.get) (record { unique = o.unique; named = o.named; books = o.books })
  | inr (item, found) ↦
      rw (found, Cache.get) (record { unique = o.unique; named = o.named; books = o.books })
]

remove-Owes : (debt : ℕ) (key : Bytes) (c : AssetCache) → Owes debt c → Owes debt (remove key c)
unfolding remove
remove-Owes debt key c o = elim (Option-cases (lookup key c.items)) [
  | inl missing ↦ rw (missing, remove) o
  | inr (item, found) ↦ rw (found, remove) (delete-Owes debt key item c found o)
]

set-Returns :
    (order : ℕ → Map CachedAsset → Map CachedAsset) (key : Bytes) (asset : CachedAsset)
    (c : AssetCache)
    → IsRange order
    → is_empty key ≡ false
    → Short c
    → Returns (Cache.set order key asset c)
set-Returns order key asset c range named s = elim (Option-cases (lookup key c.items)) [
  | inl missing ↦
      let (m, returns, sets, _, _, _, _) =
        set_new_owing order range key asset c s.debt named missing s.owes in
      record {
        after = put key asset m;
        returns = returns;
        short = record { debt = s.debt; owes = sets.owes };
      }
  | inr (old, found) ↦
      let owed = length old.content + s.debt in
      let (after, returns, sets) =
        set_over_owing order range key asset c s.debt owed old refl named found s.owes in
      record {
        after = after;
        returns = returns;
        short = elim sets [
          | inl paid ↦ record { debt = s.debt; owes = paid.owes }
          | inr unpaid ↦ record { debt = owed; owes = unpaid.owes }
        ];
      }
]

module _ (orders : ℕ → ℕ → Map CachedAsset → Map CachedAsset)
    (ranges : (n : ℕ) → IsRange (orders n)) where
  asset_step-Returns :
      (n : ℕ) (call : AssetCall) (c : AssetCache)
      → IsNamed call
      → Short c
      → Returns (asset_step orders n call c)
  unfolding asset_step
  asset_step-Returns n (get_call key) c _ s = record {
    after = _;
    returns = refl;
    short = record { debt = s.debt; owes = get-Owes s.debt key c s.owes };
  }
  asset_step-Returns n (set_call key asset) c named s =
      set-Returns (orders n) key asset c (ranges n) named s
  asset_step-Returns n (remove_call key) c _ s = record {
    after = _;
    returns = refl;
    short = record { debt = s.debt; owes = remove-Owes s.debt key c s.owes };
  }

  run_assets-Returns :
      (calls : List AssetCall) (c : AssetCache)
      → All IsNamed calls
      → Short c
      → Returns (run_assets orders calls c)
  unfolding run_assets
  run_assets-Returns [] c h s = record { after = c; returns = refl; short = s }
  run_assets-Returns (call ∷ calls) c h s =
      let x = asset_step-Returns (length calls) call c h.0 s in
      rw (run_assets, x.returns) (run_assets-Returns calls x.after h.1 x.short)

  -- Every sequence of calls of `get`, `set` and `remove` on a new asset cache, in which no `set` has
  -- an empty key, returns: no eviction loop runs for ever, in whatever order `range` meets the
  -- entries, as long as it meets each and nothing else. Afterwards `cur_bytes` is at most the number
  -- of bytes held.
  pub run_assets_returns :
      (max_bytes : ℕ) (calls : List AssetCall)
      → All IsNamed calls
      → (after : AssetCache) × (debt : ℕ) × (run_assets orders calls (new_asset_cache max_bytes)
          ≡ some after)
        × (after.cur_bytes +ℤ pos debt ≡ pos (held after.items))
  unfolding new_asset_cache ◌+ℤ◌ sum_by lookup
  run_assets_returns max_bytes calls h =
      let x =
        run_assets-Returns calls (new_asset_cache max_bytes) h
          (record { debt = 0; owes = new-Owes }) in
      (x.after, x.short.debt, x.returns, x.short.owes.books)
    where
      new-Owes : Owes 0 (new_asset_cache max_bytes)
      new-Owes = record { unique = tt; named = λ k a e. absurd (cc); books = refl }
