-- ===== src/Assets/Budget.antt =====
-- The eviction loop of `set` ends, keeps the books, and evicts the oldest entries first.
use cache_server_go.Base.{
  ℕ, zero, suc, ◌≤◌, ◌<◌, ◌≡◌, refl, ap, ◌∙◌, ◌⊎◌, inl, inr, ite, true, false, Option, none, some,
  Bytes, arith, length, pos, pos_part, neg_part, ◌+ℤ◌, ◌-ℤ◌, eq_of_parts, +ℤ_parts, -ℤ_parts,
  Bool-cases, dec_bytes,
}
use cache_server_go.Base.Maps.{
  Map, lookup, delete, size, HasUniqueKeys, sum_by, delete-HasUniqueKeys, sum_by-delete,
  size-delete-lt, lookup-delete,
}
use cache_server_go.Assets.Cache.{
  CachedAsset, AssetCache, is_empty, oldest, bytes_of, evict, over_budget, make_space, IsRange,
}
use cache_server_go.Assets.Oldest.{NonEmptyKeys, IsOldest, oldest-IsOldest}

abbrev pub content_length : CachedAsset → ℕ
content_length a = length a.content

-- The bytes that the entries hold.
abbrev pub held : Map CachedAsset → ℕ
held m = sum_by content_length m

-- `cur_bytes` and `debt` are together the bytes that the entries hold; no key is stored twice, and
-- none is empty.
pub record Owes (debt : ℕ) (c : AssetCache) : Type 0 where
  pub unique : HasUniqueKeys c.items
  pub named : NonEmptyKeys c.items
  pub books : c.cur_bytes +ℤ pos debt ≡ pos (held c.items)

-- What some evictions, each of an entry that none is older than, change.
pub record Sheds (c c' : AssetCache) : Type 0 where
  pub kept : (q : Bytes) → (lookup q c'.items ≡ lookup q c.items) ⊎ (lookup q c'.items ≡ none)
  pub oldest_first :
      (q p : Bytes) (b a : CachedAsset)
      → lookup q c.items ≡ some b
      → lookup q c'.items ≡ none
      → lookup p c'.items ≡ some a
      → b.cached_at ≤ a.cached_at
  pub max_bytes : c'.max_bytes ≡ c.max_bytes

evict_lem :
    (k : Bytes) (c : AssetCache)
    → is_empty k ≡ false
    → evict k c
      ≡ record c { cur_bytes = c.cur_bytes -ℤ pos (bytes_of k c); items = delete k c.items }
unfolding evict
evict_lem k c h = rw h

bytes_of_lem :
    (k : Bytes) (c : AssetCache) (a : CachedAsset)
    → lookup k c.items ≡ some a
    → bytes_of k c ≡ length a.content
unfolding bytes_of
bytes_of_lem k c a h = rw (h, bytes_of)

-- The deletion of a stored entry with its bytes keeps the debt.
pub delete-Owes :
    (debt : ℕ) (k : Bytes) (a : CachedAsset) (c : AssetCache)
    → lookup k c.items ≡ some a
    → Owes debt c
    → Owes debt
        (record c { cur_bytes = c.cur_bytes -ℤ pos (length a.content); items = delete k c.items })
delete-Owes debt k a c stored o = record {
  unique = delete-HasUniqueKeys k c.items o.unique;
  named = λ q b e. o.named q b (ground (arith, lookup-delete k q c.items));
  books = eq_of_parts _ _ (
      omega (
        arith,
        +ℤ_parts (c.cur_bytes -ℤ pos (length a.content)) (pos debt),
        -ℤ_parts c.cur_bytes (pos (length a.content)),
        +ℤ_parts c.cur_bytes (pos debt),
        ap pos_part o.books,
        ap neg_part o.books,
        sum_by-delete content_length k a c.items o.unique stored,
      ));
}

pub evict-Owes :
    (debt : ℕ) (k : Bytes) (c : AssetCache)
    → Owes debt c
    → IsOldest c.items k
    → Owes debt (evict k c)
evict-Owes debt k c o x =
    rw (evict_lem k c x.named, bytes_of_lem k c x.asset x.stored)
      (delete-Owes debt k x.asset c x.stored o)

Sheds-refl : (c : AssetCache) → Sheds c c
Sheds-refl c = record {
  kept = λ q. inl refl;
  oldest_first = λ q p b a h k _. absurd (clash q b h k);
  max_bytes = refl;
}
  where
    clash : (q : Bytes) (b : CachedAsset) → lookup q c.items ≡ some b → lookup q c.items ≡ none → ⊥
    clash q b h k = cc

pub evict-items :
    (k : Bytes) (c : AssetCache) → is_empty k ≡ false → (evict k c).items ≡ delete k c.items
evict-items k c h = ap (λ (x : AssetCache). x.items) (evict_lem k c h)

evict-max_bytes : (k : Bytes) (c : AssetCache) → (evict k c).max_bytes ≡ c.max_bytes
unfolding evict
evict-max_bytes k c = ground arith

pub lookup-evict :
    (k q : Bytes) (c : AssetCache)
    → is_empty k ≡ false
    → lookup q (evict k c).items ≡ ite (dec_bytes k q) none (lookup q c.items)
lookup-evict k q c h = rw (evict-items k c h) (lookup-delete k q c.items)

-- One more eviction in front.
pub Sheds-step :
    (k : Bytes) (c c' : AssetCache) → IsOldest c.items k → Sheds (evict k c) c' → Sheds c c'
Sheds-step k c c' x s = record {
  kept = λ q. ground (arith, s.kept q, lookup-evict k q c x.named);
  oldest_first = λ q p b a h gone there. elim (dec_bytes k q) [
    | yes e ↦
        let same : x.asset ≡ b = ground (arith, x.stored, ap (λ z. lookup z c.items) e) in
        rw (← same) (x.least p a (ground (arith, s.kept p, lookup-evict k p c x.named)))
    | no ne ↦ s.oldest_first q p b a (ground (arith, lookup-evict k q c x.named)) gone there
  ];
  max_bytes = s.max_bytes ∙ evict-max_bytes k c;
}

-- How the eviction loop ends: the test of the loop fails.
pub record MadeSpace (debt new_size : ℕ) (c : AssetCache) (r : Option AssetCache) : Type 0 where
  pub after : AssetCache
  pub returns : r ≡ some after
  pub owes : Owes debt after
  pub fits : over_budget new_size after ≡ false
  pub sheds : Sheds c after

pub size-evict :
    (k : Bytes) (c : AssetCache) → IsOldest c.items k → size (evict k c).items < size c.items
size-evict k c x = rw (evict-items k c x.named) (size-delete-lt k x.asset c.items x.stored)

pub over_budget-pos : (n : ℕ) (c : AssetCache) → over_budget n c ≡ true → 0 < size c.items
unfolding over_budget
over_budget-pos n c h = ground arith

pub make_space_over :
    (order : ℕ → Map CachedAsset → Map CachedAsset) (fuel n : ℕ) (c : AssetCache)
    → over_budget n c ≡ true
    → make_space order (suc fuel) n c
      ≡ make_space order fuel n (evict (oldest (order fuel c.items)) c)
unfolding make_space
make_space_over order fuel n c h = rw h

module _ (order : ℕ → Map CachedAsset → Map CachedAsset) (range : IsRange order) where
  -- With a round for each entry and one more, the loop ends, whatever the iteration orders.
  pub make_space-MadeSpace :
      (fuel new_size debt : ℕ) (c : AssetCache)
      → Owes debt c
      → size c.items < fuel
      → MadeSpace debt new_size c (make_space order fuel new_size c)
  unfolding make_space
  make_space-MadeSpace zero new_size debt c o h = elim h [ ]
  make_space-MadeSpace (suc fuel) new_size debt c o h = elim (Bool-cases (over_budget new_size c)) [
    | inr no_more ↦
        rw no_more
          (record { after = c; returns = refl; owes = o; fits = no_more; sheds = Sheds-refl c })
    | inl over ↦
        let k = oldest (order fuel c.items) in
        let x =
          oldest-IsOldest order fuel c.items range o.named (over_budget-pos new_size c over) in
        let m =
          make_space-MadeSpace fuel new_size debt (evict k c) (evict-Owes debt k c o x)
            (omega (arith, size-evict k c x)) in
        rw over (record {
          after = m.after;
          returns = m.returns;
          owes = m.owes;
          fits = m.fits;
          sheds = Sheds-step k c m.after x m.sheds;
        })
  ]
