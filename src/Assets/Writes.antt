-- ===== src/Assets/Writes.antt =====
-- `set` and `remove` of the asset cache: they return, keep the books, and stay within the budget.
use cache_server_go.Base.{
  ℕ, suc, ◌+◌, ◌≤◌, ◌≡◌, ◌≢◌, refl, ap, sym, ◌∙◌, ◌⊎◌, ite, if_pos, false, none, some, Bytes, arith,
  length, pos, pos_part, neg_part, ◌+ℤ◌, ◌-ℤ◌, eq_of_parts, +ℤ_parts, -ℤ_parts, dec_bytes,
}
use cache_server_go.Base.Maps.{
  Map, lookup, insert, size, insert-HasUniqueKeys, sum_by-insert_new, sum_by-insert_old,
  lookup-insert, size-insert_new,
}
use cache_server_go.Assets.Cache.{
  CachedAsset, AssetCache, is_empty, over_budget, make_space, forget_old, put, set,
}
use cache_server_go.Assets.Budget.{content_length, held, Owes, Sheds}

-- `cur_bytes` is the number of bytes that the entries hold.
abbrev pub IsAccounted : AssetCache → Type 0
IsAccounted c = Owes 0 c

pub forget_new : (key : Bytes) (c : AssetCache) → lookup key c.items ≡ none → forget_old key c ≡ c
unfolding forget_old
forget_new key c h = rw (h, forget_old)

put-named :
    (key : Bytes) (asset : CachedAsset) (m : Map CachedAsset) (q : Bytes) (a : CachedAsset)
    → is_empty key ≡ false
    → (lookup q m ≡ some a → is_empty q ≡ false)
    → lookup q (insert key asset m) ≡ some a
    → is_empty q ≡ false
put-named key asset m q a h k e = ground (arith, lookup-insert key q asset m, ap is_empty)

-- The write of a key that is not stored keeps the debt.
pub put-Owes_new :
    (debt : ℕ) (key : Bytes) (asset : CachedAsset) (c : AssetCache)
    → is_empty key ≡ false
    → lookup key c.items ≡ none
    → Owes debt c
    → Owes debt (put key asset c)
unfolding put
put-Owes_new debt key asset c named missing o = record {
  unique = insert-HasUniqueKeys key asset c.items o.unique;
  named = λ q a e. put-named key asset c.items q a named (o.named q a) e;
  books = eq_of_parts _ _ (
      omega (
        arith,
        +ℤ_parts (c.cur_bytes +ℤ pos (length asset.content)) (pos debt),
        +ℤ_parts c.cur_bytes (pos (length asset.content)),
        +ℤ_parts c.cur_bytes (pos debt),
        ap pos_part o.books,
        ap neg_part o.books,
        sum_by-insert_new content_length key asset c.items missing,
      ));
}

-- The write over a stored entry pays the debt of its bytes.
pub put-Owes_old :
    (debt owed : ℕ) (key : Bytes) (asset old : CachedAsset) (c : AssetCache)
    → owed ≡ length old.content + debt
    → is_empty key ≡ false
    → lookup key c.items ≡ some old
    → Owes owed c
    → Owes debt (put key asset c)
unfolding put
put-Owes_old debt owed key asset old c sum named found o = record {
  unique = insert-HasUniqueKeys key asset c.items o.unique;
  named = λ q a e. put-named key asset c.items q a named (o.named q a) e;
  books = eq_of_parts _ _ (
      omega (
        arith,
        +ℤ_parts (c.cur_bytes +ℤ pos (length asset.content)) (pos debt),
        +ℤ_parts c.cur_bytes (pos (length asset.content)),
        +ℤ_parts c.cur_bytes (pos owed),
        ap pos_part o.books,
        ap neg_part o.books,
        sum_by-insert_old content_length key asset old c.items found,
      ));
}

-- The entry that is written over is owed from `forget_old` on.
pub forget_old-Owes :
    (debt owed : ℕ) (key : Bytes) (old : CachedAsset) (c : AssetCache)
    → owed ≡ length old.content + debt
    → lookup key c.items ≡ some old
    → Owes debt c
    → (forget_old key c ≡ record c { cur_bytes = c.cur_bytes -ℤ pos (length old.content) })
      × Owes owed (record c { cur_bytes = c.cur_bytes -ℤ pos (length old.content) })
unfolding forget_old
forget_old-Owes debt owed key old c sum found o = (
  rw (found, forget_old),
  record {
    unique = o.unique;
    named = o.named;
    books = eq_of_parts _ _ (
        omega (
          arith,
          +ℤ_parts (c.cur_bytes -ℤ pos (length old.content)) (pos owed),
          -ℤ_parts c.cur_bytes (pos (length old.content)),
          +ℤ_parts c.cur_bytes (pos debt),
          ap pos_part o.books,
          ap neg_part o.books,
        ));
  },
)

-- What a `set` of `key` leaves: the asset is stored, any other entry is as before or
-- evicted, and what was evicted is no newer than what stays.
pub record Sets (debt : ℕ) (key : Bytes) (asset : CachedAsset) (c after : AssetCache) : Type 0 where
  pub owes : Owes debt after
  pub stored : lookup key after.items ≡ some asset
  pub others :
      (q : Bytes)
      → q ≢ key
      → (lookup q after.items ≡ lookup q c.items) ⊎ (lookup q after.items ≡ none)
  pub oldest_first :
      (q p : Bytes) (b a : CachedAsset)
      → q ≢ key
      → p ≢ key
      → lookup q c.items ≡ some b
      → lookup q after.items ≡ none
      → lookup p after.items ≡ some a
      → b.cached_at ≤ a.cached_at

lookup-put :
    (key q : Bytes) (asset : CachedAsset) (c : AssetCache)
    → lookup q (put key asset c).items ≡ ite (dec_bytes key q) (some asset) (lookup q c.items)
unfolding put
lookup-put key q asset c = lookup-insert key q asset c.items

lookup-put_ne :
    (key q : Bytes) (asset : CachedAsset) (c : AssetCache)
    → q ≢ key
    → lookup q (put key asset c).items ≡ lookup q c.items
lookup-put_ne key q asset c h = ground (arith, lookup-put key q asset c)

-- The write after an eviction loop.
pub Sets-Sheds :
    (debt : ℕ) (key : Bytes) (asset : CachedAsset) (c m : AssetCache)
    → Sheds c m
    → Owes debt (put key asset m)
    → Sets debt key asset c (put key asset m)
Sets-Sheds debt key asset c m s o = record {
  owes = o;
  stored = lookup-put key key asset m ∙ if_pos (dec_bytes key key) refl _ _;
  others = λ q h. rw (lookup-put_ne key q asset m h) (s.kept q);
  oldest_first = λ q p b a hq hp e gone there.
      s.oldest_first q p b a e (sym (lookup-put_ne key q asset m hq) ∙ gone)
        (sym (lookup-put_ne key p asset m hp) ∙ there);
}

pub set-MadeSpace :
    (order : ℕ → Map CachedAsset → Map CachedAsset) (key : Bytes) (asset : CachedAsset)
    (c m : AssetCache)
    → make_space order (suc (size c.items)) (length asset.content) (forget_old key c) ≡ some m
    → set order key asset c ≡ some (put key asset m)
unfolding set
set-MadeSpace order key asset c m e = rw (e, set)

pub missing_after :
    (key : Bytes) (c m : AssetCache)
    → Sheds c m
    → lookup key c.items ≡ none
    → lookup key m.items ≡ none
missing_after key c m s h = ground (arith, s.kept key)

pub within_budget :
    (key : Bytes) (asset : CachedAsset) (c m : AssetCache)
    → m.max_bytes ≡ c.max_bytes
    → lookup key m.items ≡ none
    → Owes 0 m
    → over_budget (length asset.content) m ≡ false
    → (held (put key asset m).items ≤ c.max_bytes) ⊎ (size (put key asset m).items ≡ 1)
unfolding put over_budget
within_budget key asset c m same missing o h = ground (
  arith,
  sum_by-insert_new content_length key asset m.items missing,
  size-insert_new key asset m.items missing,
  +ℤ_parts m.cur_bytes (pos (length asset.content)),
  +ℤ_parts m.cur_bytes (pos 0),
  ap pos_part o.books,
  ap neg_part o.books,
)
