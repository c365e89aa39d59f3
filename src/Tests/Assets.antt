-- ===== src/Tests/Assets.antt =====
-- The asset cache: runs and instances. The iteration order is that of the list.
use mathlib.Core.Option.{some-injective}
use mathlib.Core.Path.{ap₂}
use cache_server_go.Base.{
  ℕ, zero, suc, ◌≤◌, ◌<◌, ◌≡◌, ◌≢◌, refl, ◌⊎◌, ite, if_pos, if_neg, none, some, List, [], ◌∷◌,
  Bytes, arith, codes, pos, InList, dec_bytes, ap, ℕ_discrete, ◌+ℤ◌, ◌-ℤ◌, false, sym, ◌∙◌,
}
use cache_server_go.Base.Maps.{Map, lookup, insert, delete, size, sum_by}
use cache_server_go.Assets.Cache.{
  CachedAsset, AssetCache, new_asset_cache, set, remove, put, forget_old, make_space, over_budget,
  evict, bytes_of, oldest, scan, is_empty, IsRange,
}
use cache_server_go.Assets.Oldest.{oldest-IsOldest, IsOldest}
use cache_server_go.Assets.Budget.{held}
use cache_server_go.Assets.Writes.{IsAccounted, Sets}
use cache_server_go.Assets.History.{
  AssetCall, get_call, set_call, remove_call, run_assets, run_assets_returns,
}
use cache_server_go.Assets.Laws.{set_new, set_over, set_over_oldest, remove_lem}

-- The entries that a read finds, in order.
abbrev entries : Map CachedAsset → Map CachedAsset
entries [] = []
entries ((k, v) ∷ m) = (k, v) ∷ delete k (entries m)

head_key : (i k : Bytes) (v a : CachedAsset) → ◌≡◌ {A = Bytes × CachedAsset} (i, v) (k, a) → i ≡ k
head_key i k v a e = ap (λ p. p.0) e

delete-InList :
    (j k : Bytes) (a : CachedAsset) (m : Map CachedAsset)
    → InList (k, a) (delete j m)
    → InList (k, a) m × (j ≢ k)
unfolding delete
delete-InList j k a [] h = absurd (cc (h.1))
delete-InList j k a ((i, v) ∷ m) h = elim (dec_bytes i j) [
  | yes p ↦
      let ((x, e), other) = delete-InList j k a m (rw (if_pos (dec_bytes i j) p) at h) in
      ((suc x, e), other)
  | no p ↦ kept (delete-InList j k a m) p (rw (if_neg (dec_bytes i j) p) at h)
]
  where
    kept :
        (InList (k, a) (delete j m) → InList (k, a) m × (j ≢ k))
        → i ≢ j
        → InList (k, a) ((i, v) ∷ delete j m)
        → InList (k, a) ((i, v) ∷ m) × (j ≢ k)
    kept rest p (zero, e) = ((zero, e), λ q. p (head_key i k v a (some-injective _ _ e) ∙ sym q))
    kept rest p (suc x, e) = let ((y, f), other) = rest (x, e) in ((suc y, f), other)

InList-delete :
    (j k : Bytes) (a : CachedAsset) (m : Map CachedAsset)
    → j ≢ k
    → InList (k, a) m
    → InList (k, a) (delete j m)
unfolding delete
InList-delete j k a [] n h = absurd (cc (h.1))
InList-delete j k a ((i, v) ∷ m) n (zero, e) =
    rw (if_neg (dec_bytes i j) (λ p. n (sym p ∙ head_key i k v a (some-injective _ _ e)))) (zero, e)
InList-delete j k a ((i, v) ∷ m) n (suc x, e) =
    let (y, f) = InList-delete j k a m n (x, e) in
    elim (dec_bytes i j) [
      | yes p ↦ rw (if_pos (dec_bytes i j) p) (y, f)
      | no p ↦ rw (if_neg (dec_bytes i j) p) (suc y, f)
    ]

entries_met :
    (m : Map CachedAsset) (k : Bytes) (a : CachedAsset)
    → InList (k, a) (entries m)
    → lookup k m ≡ some a
unfolding lookup
entries_met [] k a h = absurd (cc (h.1))
entries_met ((j, v) ∷ m) k a (zero, e) =
    rw (if_pos (dec_bytes j k) (head_key j k v a (some-injective _ _ e)))
      (ap some (ap (λ p. p.1) (some-injective _ _ e)))
entries_met ((j, v) ∷ m) k a (suc i, e) =
    let (there, other) = delete-InList j k a (entries m) (i, e) in
    ground (arith, entries_met m k a there)

entries_meets :
    (m : Map CachedAsset) (k : Bytes) (a : CachedAsset)
    → lookup k m ≡ some a
    → InList (k, a) (entries m)
unfolding lookup
entries_meets [] k a h = absurd (cc)
entries_meets ((j, v) ∷ m) k a h = elim (dec_bytes j k) [
  | yes p ↦
      (0, ap₂ (λ q b. some (q, b)) p (some-injective _ _ (rw (if_pos (dec_bytes j k) p) at h)))
  | no p ↦
      let (i, e) = InList-delete j k a (entries m) p (entries_meets m k a (ground arith)) in
      (suc i, e)
]

abbrev pub in_order : ℕ → Map CachedAsset → Map CachedAsset
in_order n m = entries m

pub in_order-IsRange : IsRange in_order
in_order-IsRange = record { met = λ n. entries_met; meets = λ n. entries_meets }

abbrev asset : Bytes → ℕ → CachedAsset
asset content at = record {
  content = content;
  content_type = codes "text/css";
  size = pos 0;
  cached_at = at;
}

program : Unit {0}
unfolding set put forget_old make_space over_budget evict bytes_of oldest scan new_asset_cache
    remove lookup insert delete dec_bytes ℕ_discrete ◌+ℤ◌ ◌-ℤ◌ sum_by
program = tt

abbrev a_key : Bytes
a_key = codes "a"

abbrev b_key : Bytes
b_key = codes "b"

-- Ten bytes of budget, four of them held by the older entry.
abbrev pub two : AssetCache
two = record (new_asset_cache 10) {
  items = (a_key, asset (codes "aaaa") 1) ∷ (b_key, asset (codes "bbbbbb") 2) ∷ [];
  cur_bytes = pos 10;
}

-- Writing five bytes over the older entry leaves 11 bytes held, and 7 counted.
overwritten :
    set in_order a_key (asset (codes "AAAAA") 3) two
    ≡ some (record two {
      items = (b_key, asset (codes "bbbbbb") 2) ∷ (a_key, asset (codes "AAAAA") 3) ∷ [];
      cur_bytes = pos 7;
    })
unfolding program
overwritten = refl

pub two-IsAccounted : IsAccounted two
unfolding program
two-IsAccounted = record { unique = (refl, (refl, tt)); named = two_named; books = refl }
  where
    two_named : (k : Bytes) (a : CachedAsset) → lookup k two.items ≡ some a → is_empty k ≡ false
    two_named [] a h = absurd (cc)
    two_named (x ∷ k) a h = refl

oldest-IsOldest_example : IsOldest two.items (oldest (in_order 0 two.items))
oldest-IsOldest_example =
    oldest-IsOldest in_order 0 two.items in_order-IsRange two-IsAccounted.named (omega arith)

set_new_example :
    (after : AssetCache) × (set in_order (codes "c") (asset (codes "ccc") 3) two ≡ some after)
    × Sets 0 (codes "c") (asset (codes "ccc") 3) two after
    × ((held after.items ≤ 10) ⊎ (size after.items ≡ 1))
unfolding program
set_new_example =
    set_new in_order in_order-IsRange (codes "c") (asset (codes "ccc") 3) two refl refl
      two-IsAccounted

set_over_example :
    (after : AssetCache) × (set in_order b_key (asset (codes "BB") 3) two ≡ some after)
    × (Sets 0 b_key (asset (codes "BB") 3) two after
        ⊎ Sets 6 b_key (asset (codes "BB") 3) two after)
unfolding program
set_over_example =
    set_over in_order in_order-IsRange b_key (asset (codes "BB") 3) two (asset (codes "bbbbbb") 2)
      refl refl two-IsAccounted

b_newer : (q : Bytes) (b : CachedAsset) → q ≢ a_key → lookup q two.items ≡ some b → 1 < b.cached_at
unfolding lookup
b_newer q b n h = elim (dec_bytes a_key q) [
  | yes p ↦ absurd (n (sym p))
  | no p ↦ elim (dec_bytes b_key q) [
    | yes r ↦ at_b (rw (if_neg (dec_bytes a_key q) p, if_pos (dec_bytes b_key q) r) at h)
    | no r ↦ at_none (rw (if_neg (dec_bytes a_key q) p, if_neg (dec_bytes b_key q) r) at h)
  ]
]
  where
    at_b : some (asset (codes "bbbbbb") 2) ≡ some b → 1 < b.cached_at
    at_b e = omega (arith, ap (λ (x : CachedAsset). x.cached_at) (some-injective _ _ e))

    at_none : none ≡ some b → 1 < b.cached_at
    at_none e = absurd (cc)

set_over_oldest_example :
    (after : AssetCache) × (set in_order a_key (asset (codes "AAAAA") 3) two ≡ some after)
    × (after.cur_bytes +ℤ pos 4 ≡ pos (held after.items))
unfolding program
set_over_oldest_example =
    set_over_oldest in_order in_order-IsRange a_key (asset (codes "AAAAA") 3) two
      (asset (codes "aaaa") 1) refl refl two-IsAccounted b_newer refl

remove_lem_example :
    IsAccounted (remove a_key two)
    × (lookup b_key (remove a_key two).items
        ≡ ite (dec_bytes a_key b_key) none (lookup b_key two.items))
remove_lem_example = remove_lem a_key b_key two two-IsAccounted

-- Two new keys, a write over the older one that evicts it, a removal and a read.
abbrev calls : List AssetCall
calls =
    set_call a_key (asset (codes "aaaa") 1)
    ∷ set_call b_key (asset (codes "bbbbbb") 2)
    ∷ set_call a_key (asset (codes "AAAAAAAA") 3)
    ∷ remove_call b_key
    ∷ get_call a_key
    ∷ []

run_assets_returns_example :
    (after : AssetCache) × (debt : ℕ) × (run_assets (λ n. in_order) calls (new_asset_cache 10)
      ≡ some after)
    × (after.cur_bytes +ℤ pos debt ≡ pos (held after.items))
run_assets_returns_example =
    run_assets_returns (λ n. in_order) (λ n. in_order-IsRange) 10 calls
      (refl, (refl, (refl, (tt, (tt, tt)))))
