-- ===== src/Assets/Laws.antt =====
-- What `set`, `remove` and `get` of the asset cache promise.
use cache_server_go.Base.{
  ℕ, suc, ◌+◌, ◌≤◌, ◌<◌, ◌≡◌, ◌≢◌, ap, ◌∙◌, ◌⊎◌, inl, inr, ite, if_pos, true, false, none, some,
  Bytes, arith, length, pos, ◌+ℤ◌, ◌-ℤ◌, Option-cases, dec_bytes,
}
use cache_server_go.Base.Maps.{Map, lookup, size, lookup-delete}
use cache_server_go.Assets.Cache.{
  CachedAsset, AssetCache, is_empty, oldest, evict, over_budget, make_space, forget_old, put, set,
  remove, IsRange,
}
use cache_server_go.Assets.Oldest.{IsOldest, oldest-IsOldest}
use cache_server_go.Assets.Budget.{
  held, Owes, Sheds, make_space-MadeSpace, make_space_over, delete-Owes, evict-Owes, size-evict,
  over_budget-pos, lookup-evict,
}
use cache_server_go.Assets.Writes.{
  IsAccounted, Sets, forget_new, put-Owes_new, put-Owes_old, forget_old-Owes, Sets-Sheds,
  set-MadeSpace, missing_after, within_budget,
}

module _ (order : ℕ → Map CachedAsset → Map CachedAsset) (range : IsRange order) (key : Bytes)
    (asset : CachedAsset) (c : AssetCache) where
  -- A `set` of a key that is not stored returns and owes no more than before.
  pub set_new_owing :
      (debt : ℕ)
      → is_empty key ≡ false
      → lookup key c.items ≡ none
      → Owes debt c
      → (m : AssetCache) × (set order key asset c ≡ some (put key asset m))
        × Sets debt key asset c (put key asset m)
        × (lookup key m.items ≡ none)
        × (m.max_bytes ≡ c.max_bytes)
        × Owes debt m
        × (over_budget (length asset.content) m ≡ false)
  set_new_owing debt named missing o =
      let m =
        make_space-MadeSpace order range (suc (size c.items)) (length asset.content) debt c o
          (omega arith) in
      let gone = missing_after key c m.after m.sheds missing in
      let loop : make_space order (suc (size c.items)) (length asset.content) (forget_old key c)
          ≡ some m.after =
        rw (forget_new key c missing) m.returns in
      (
        m.after,
        set-MadeSpace order key asset c m.after loop,
        Sets-Sheds debt key asset c m.after m.sheds
            (put-Owes_new debt key asset m.after named gone m.owes),
        gone,
        m.sheds.max_bytes,
        m.owes,
        m.fits,
      )

  -- On a cache that is accounted (`cur_bytes` is the number of bytes held, no key is empty or
  -- double), a `set` of a key that is neither empty nor stored returns, whatever the iteration
  -- orders, as long as they meet each entry and nothing else. The cache stays accounted; the asset
  -- is stored; every other entry is as before or evicted, older ones first; and the entries fit
  -- the budget, unless the asset stands alone.
  pub set_new :
      is_empty key ≡ false
      → lookup key c.items ≡ none
      → IsAccounted c
      → (after : AssetCache) × (set order key asset c ≡ some after)
        × Sets 0 key asset c after
        × ((held after.items ≤ c.max_bytes) ⊎ (size after.items ≡ 1))
  set_new named missing o =
      let (m, returns, sets, gone, same, owes, fits) = set_new_owing 0 named missing o in
      (put key asset m, returns, sets, within_budget key asset c m same gone owes fits)

  -- A `set` over a stored entry returns, and pays back what it owes meanwhile unless the entry is
  -- evicted.
  pub set_over_owing :
      (debt owed : ℕ) (old : CachedAsset)
      → owed ≡ length old.content + debt
      → is_empty key ≡ false
      → lookup key c.items ≡ some old
      → Owes debt c
      → (after : AssetCache) × (set order key asset c ≡ some after)
        × (Sets debt key asset c after ⊎ Sets owed key asset c after)
  set_over_owing debt owed old sum named found o =
      let (forgets, owes) = forget_old-Owes debt owed key old c sum found o in
      let c' = record c { cur_bytes = c.cur_bytes -ℤ pos (length old.content) } in
      let m =
        make_space-MadeSpace order range (suc (size c.items)) (length asset.content) owed c' owes
          (omega arith) in
      let sheds : Sheds c m.after = record {
        kept = m.sheds.kept;
        oldest_first = m.sheds.oldest_first;
        max_bytes = m.sheds.max_bytes;
      } in
      let loop : make_space order (suc (size c.items)) (length asset.content) (forget_old key c)
          ≡ some m.after =
        rw forgets m.returns in
      (
        put key asset m.after,
        set-MadeSpace order key asset c m.after loop,
        elim (m.sheds.kept key) [
          | inl still ↦ inl (
              Sets-Sheds debt key asset c m.after sheds
                (put-Owes_old debt owed key asset old m.after sum named (still ∙ found) m.owes))
          | inr gone ↦ inr (
              Sets-Sheds owed key asset c m.after sheds
                (put-Owes_new owed key asset m.after named gone m.owes))
        ],
      )

  -- On an accounted cache a `set` over a stored entry, whose key is not empty, returns too, for
  -- any iteration orders that meet each entry and nothing else. Afterwards `cur_bytes` is the
  -- number of bytes held, or that number less the length of the entry that was written over.
  pub set_over :
      (old : CachedAsset)
      → is_empty key ≡ false
      → lookup key c.items ≡ some old
      → IsAccounted c
      → (after : AssetCache) × (set order key asset c ≡ some after)
        × (Sets 0 key asset c after ⊎ Sets (length old.content) key asset c after)
  set_over old named found o = set_over_owing 0 (length old.content) old (omega arith) named found o

  first_round :
      (old : CachedAsset)
      → lookup key c.items ≡ some old
      → ((q : Bytes) (b : CachedAsset)
          → q ≢ key
          → lookup q c.items ≡ some b
          → old.cached_at < b.cached_at)
      → (k : Bytes) → IsOldest c.items k
      → k ≡ key
  first_round old found newer k x = elim (dec_bytes k key) [
    | yes p ↦ p
    | no p ↦ absurd (omega (arith, newer k x.asset p x.stored, x.least key old found))
  ]

  -- On an accounted cache, with such orders, a `set` over the entry that is older than every
  -- other, where the entries without its bytes and the new asset together exceed the budget: the
  -- loop evicts the old entry itself, its length is subtracted twice, and `cur_bytes` falls short
  -- of the bytes held by that length.
  pub set_over_oldest :
      (old : CachedAsset)
      → is_empty key ≡ false
      → lookup key c.items ≡ some old
      → IsAccounted c
      → ((q : Bytes) (b : CachedAsset)
          → q ≢ key
          → lookup q c.items ≡ some b
          → old.cached_at < b.cached_at)
      → over_budget (length asset.content) (forget_old key c) ≡ true
      → (after : AssetCache) × (set order key asset c ≡ some after)
        × (after.cur_bytes +ℤ pos (length old.content) ≡ pos (held after.items))
  set_over_oldest old named found o newer over =
      let (forgets, owes) =
        forget_old-Owes 0 (length old.content) key old c (omega arith) found o in
      let c' = record c { cur_bytes = c.cur_bytes -ℤ pos (length old.content) } in
      let k = oldest (order (size c.items) c.items) in
      let over' : over_budget (length asset.content) c' ≡ true = rw (← forgets) over in
      let x : IsOldest c.items k =
        oldest-IsOldest order (size c.items) c.items range o.named
          (over_budget-pos (length asset.content) c' over') in
      let debt = length old.content in
      let m =
        make_space-MadeSpace order range (size c.items) (length asset.content) debt (evict k c')
          (evict-Owes debt k c' owes x) (size-evict k c' x) in
      let gone : lookup key m.after.items ≡ none = missing_after key (evict k c') m.after m.sheds (
        lookup-evict k key c' x.named
        ∙ if_pos (dec_bytes k key) (first_round old found newer k x) _ _) in
      let loop : make_space order (suc (size c.items)) (length asset.content) (forget_old key c)
          ≡ some m.after =
        rw forgets
          (make_space_over order (size c.items) (length asset.content) c' over' ∙ m.returns) in
      (
        put key asset m.after,
        set-MadeSpace order key asset c m.after loop,
        (put-Owes_new debt key asset m.after named gone m.owes).books,
      )

-- On an accounted cache `remove` drops the key and its bytes and nothing else, and the cache stays
-- accounted.
pub remove_lem :
    (key q : Bytes) (c : AssetCache)
    → IsAccounted c
    → IsAccounted (remove key c)
      × (lookup q (remove key c).items ≡ ite (dec_bytes key q) none (lookup q c.items))
unfolding remove
remove_lem key q c o = elim (Option-cases (lookup key c.items)) [
  | inl missing ↦ rw (missing, remove) (o, ground (arith, ap (λ z. lookup z c.items)))
  | inr (item, found) ↦
      rw (found, remove) (delete-Owes 0 key item c found o, lookup-delete key q c.items)
]
