-- ===== src/Assets/Cache.antt =====
-- `assetCache` of internal/binaryhandler/handler.go, up to `remove`. Go fixes no order for a `range`
-- over a map: the order of each round is a parameter.
use cache_server_go.Base.{
  ℕ, zero, suc, Bool, true, false, ◌&&◌, ◌||◌, Option, none, some, [], ◌∷◌, Bytes, ltb,
  if◌then◌else◌, length, ℤ, pos, ◌+ℤ◌, ◌-ℤ◌, ltb_ℤ, add64, InList, ◌≡◌,
}
use cache_server_go.Base.Maps.{Map, lookup, insert, delete, size}

-- `cachedAsset`; `size` is what MinIO reported, the bytes held are those of `content`.
pub record CachedAsset : Type 0 where
  pub content : Bytes
  pub content_type : Bytes
  pub size : ℤ
  pub cached_at : ℕ

-- `assetCache`. The counters `hits` and `misses` are 64-bit patterns; `cur_bytes` stays far inside
-- its 64 bits, since it counts bytes in memory.
pub record AssetCache : Type 0 where
  pub items : Map CachedAsset
  pub max_bytes : ℕ
  pub cur_bytes : ℤ
  pub hits : ℕ
  pub misses : ℕ

unfoldable pub new_asset_cache : ℕ → AssetCache
new_asset_cache max_bytes = record {
  items = [];
  max_bytes = max_bytes;
  cur_bytes = pos 0;
  hits = 0;
  misses = 0;
}

unfoldable pub get : Bytes → AssetCache → AssetCache × Option CachedAsset
get key c = elim (lookup key c.items) [
  | some item ↦ (record c { hits = add64 c.hits 1 }, some item)
  | none ↦ (record c { misses = add64 c.misses 1 }, none)
]

abbrev pub is_empty : Bytes → Bool
is_empty [] = true
is_empty (b ∷ bs) = false

-- The inner loop of `set` over the entries, from the oldest key and time so far.
unfoldable pub scan : Bytes → ℕ → Map CachedAsset → Bytes
scan oldest_key oldest_time [] = oldest_key
scan oldest_key oldest_time ((k, v) ∷ rest) =
    let older = is_empty oldest_key || ltb v.cached_at oldest_time in
    scan (if older then k else oldest_key) (if older then v.cached_at else oldest_time) rest

-- The key that a round picks; the empty key means that it found none.
unfoldable pub oldest : Map CachedAsset → Bytes
oldest entries = scan [] 0 entries

-- `int64(len(c.items[k].data))`. A round asks only for keys of the map (`oldest-IsOldest`); for
-- another key the code would fault.
unfoldable pub bytes_of : Bytes → AssetCache → ℕ
bytes_of k c = elim (lookup k c.items) [ none ↦ 0 | some a ↦ length a.content ]

unfoldable pub evict : Bytes → AssetCache → AssetCache
evict k c =
    if is_empty k
    then c
    else record c { cur_bytes = c.cur_bytes -ℤ pos (bytes_of k c); items = delete k c.items }

-- `c.curBytes+newSize > c.maxBytes && len(c.items) > 0`
unfoldable pub over_budget : ℕ → AssetCache → Bool
over_budget new_size c =
    ltb_ℤ (pos c.max_bytes) (c.cur_bytes +ℤ pos new_size) && ltb 0 (size c.items)

-- `if old, ok := c.items[key]; ok { c.curBytes -= int64(len(old.data)) }`
unfoldable pub forget_old : Bytes → AssetCache → AssetCache
forget_old key c = elim (lookup key c.items) [
  | none ↦ c
  | some old ↦ record c { cur_bytes = c.cur_bytes -ℤ pos (length old.content) }
]

unfoldable pub put : Bytes → CachedAsset → AssetCache → AssetCache
put key asset c = record c {
  items = insert key asset c.items;
  cur_bytes = c.cur_bytes +ℤ pos (length asset.content);
}

module _ (order : ℕ → Map CachedAsset → Map CachedAsset) where
  -- The eviction loop of `set`; `none` means that the fuel ran out. The rounds left number the
  -- iteration orders.
  unfoldable pub make_space : ℕ → ℕ → AssetCache → Option AssetCache
  make_space zero new_size c = none
  make_space (suc fuel) new_size c =
      let rest = make_space fuel new_size (evict (oldest (order fuel c.items)) c) in
      if over_budget new_size c then rest else some c

  -- `set`, with a round for each entry and one for the last test; `none` is a loop that needs more,
  -- which takes an entry with the empty key.
  unfoldable pub set : Bytes → CachedAsset → AssetCache → Option AssetCache
  set key asset c =
      elim (make_space (suc (size c.items)) (length asset.content) (forget_old key c)) [
        | none ↦ none
        | some c' ↦ some (put key asset c')
      ]

unfoldable pub remove : Bytes → AssetCache → AssetCache
remove key c = elim (lookup key c.items) [
  | none ↦ c
  | some item ↦ record c {
    cur_bytes = c.cur_bytes -ℤ pos (length item.content);
    items = delete key c.items;
  }
]

-- What Go promises of `range`: each entry of the map is met, and nothing else.
pub record IsRange (order : ℕ → Map CachedAsset → Map CachedAsset) : Type 0 where
  pub met :
      (n : ℕ) (m : Map CachedAsset) (k : Bytes) (a : CachedAsset)
      → InList (k, a) (order n m)
      → lookup k m ≡ some a
  pub meets :
      (n : ℕ) (m : Map CachedAsset) (k : Bytes) (a : CachedAsset)
      → lookup k m ≡ some a
      → InList (k, a) (order n m)
