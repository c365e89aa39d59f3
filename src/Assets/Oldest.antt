-- ===== src/Assets/Oldest.antt =====
-- The inner loop of `set` picks a stored entry, and none is older.
use mathlib.Core.Option.{some-injective}
use cache_server_go.Base.{
  ℕ, zero, suc, ◌≤◌, ◌<◌, ◌≡◌, refl, ap, ◌⊎◌, inl, inr, false, some, [], ◌∷◌, Bytes, arith, ltb,
  All, InList, Bool-cases, sym, All-InList,
}
use cache_server_go.Base.Maps.{Map, lookup, size, lookup_of_pos-size}
use cache_server_go.Assets.Cache.{CachedAsset, is_empty, scan, oldest, IsRange}

-- No entry has the empty key.
abbrev pub NonEmptyKeys : Map CachedAsset → Type 0
NonEmptyKeys m = (k : Bytes) (a : CachedAsset) → lookup k m ≡ some a → is_empty k ≡ false

abbrev Named : Map CachedAsset → Type 0
Named = All (λ e. is_empty e.0 ≡ false)

-- What the scan returns from a first key and time: a key with its time, no later than any met.
record Picks (k₀ : Bytes) (t₀ : ℕ) (l : Map CachedAsset) (r : Bytes) : Type 0 where
  time : ℕ
  origin : (r ≡ k₀) × (time ≡ t₀) ⊎ ((a : CachedAsset) × InList (r, a) l × (a.cached_at ≡ time))
  le_first : time ≤ t₀
  least : (q : Bytes) (b : CachedAsset) → InList (q, b) l → time ≤ b.cached_at

asset_eq :
    (k q : Bytes) (v b : CachedAsset)
    → ◌≡◌ {A = Bytes × CachedAsset} (k, v) (q, b)
    → v.cached_at ≡ b.cached_at
asset_eq k q v b e = ap (λ p. p.1.cached_at) e

least_cons :
    (k : Bytes) (v : CachedAsset) (l : Map CachedAsset) (time : ℕ)
    → time ≤ v.cached_at
    → ((q : Bytes) (b : CachedAsset) → InList (q, b) l → time ≤ b.cached_at)
    → (q : Bytes) (b : CachedAsset) → InList (q, b) ((k, v) ∷ l)
    → time ≤ b.cached_at
least_cons k v l time h least q b (zero, e) = omega (arith, asset_eq k q v b (some-injective _ _ e))
least_cons k v l time h least q b (suc i, e) = least q b (i, e)

-- The scan passes over an entry that is not older.
pass :
    (k₀ : Bytes) (t₀ : ℕ) (k : Bytes) (v : CachedAsset) (l : Map CachedAsset) (r : Bytes)
    → t₀ ≤ v.cached_at
    → Picks k₀ t₀ l r
    → Picks k₀ t₀ ((k, v) ∷ l) r
pass k₀ t₀ k v l r h p = record {
  time = p.time;
  origin = elim p.origin [ inl o ↦ inl o | inr (a, (i, e), t) ↦ inr (a, (suc i, e), t) ];
  le_first = p.le_first;
  least = least_cons k v l p.time (omega (arith, p.le_first)) p.least;
}

-- The scan takes an entry.
take_entry :
    (k₀ : Bytes) (t₀ : ℕ) (k : Bytes) (v : CachedAsset) (l : Map CachedAsset) (r : Bytes)
    → v.cached_at ≤ t₀
    → Picks k v.cached_at l r
    → Picks k₀ t₀ ((k, v) ∷ l) r
take_entry k₀ t₀ k v l r h p = record {
  time = p.time;
  origin = elim p.origin [
    | inl (same, t) ↦ inr (v, (zero, ap (λ q. some (q, v)) (sym same)), sym t)
    | inr (a, (i, e), t) ↦ inr (a, (suc i, e), t)
  ];
  le_first = omega (arith, p.le_first);
  least = least_cons k v l p.time p.le_first p.least;
}

scan-Picks :
    (k₀ : Bytes) (t₀ : ℕ) (l : Map CachedAsset)
    → is_empty k₀ ≡ false
    → Named l
    → Picks k₀ t₀ l (scan k₀ t₀ l)
unfolding scan
scan-Picks k₀ t₀ [] h n = record {
  time = t₀;
  origin = inl (refl, refl);
  le_first = omega arith;
  least = λ q b e. absurd (cc (e.1));
}
scan-Picks k₀ t₀ ((k, v) ∷ l) h n = elim (Bool-cases (ltb v.cached_at t₀)) [
  | inl older ↦
      rw (h, older)
        (take_entry k₀ t₀ k v l (scan k v.cached_at l) (ground arith)
          (scan-Picks k v.cached_at l n.0 n.1))
  | inr newer ↦
      rw (h, newer) (pass k₀ t₀ k v l (scan k₀ t₀ l) (ground arith) (scan-Picks k₀ t₀ l h n.1))
]

-- A stored entry such that none is older.
pub record IsOldest (m : Map CachedAsset) (k : Bytes) : Type 0 where
  pub asset : CachedAsset
  pub stored : lookup k m ≡ some asset
  pub named : is_empty k ≡ false
  pub least : (q : Bytes) (b : CachedAsset) → lookup q m ≡ some b → asset.cached_at ≤ b.cached_at

-- The scan of entries that all have a key picks one of them, and none is older.
record PicksOne (l : Map CachedAsset) (r : Bytes) : Type 0 where
  asset : CachedAsset
  there : InList (r, asset) l
  least : (q : Bytes) (b : CachedAsset) → InList (q, b) l → asset.cached_at ≤ b.cached_at

scan_first :
    (k : Bytes) (v : CachedAsset) (l : Map CachedAsset)
    → scan [] 0 ((k, v) ∷ l) ≡ scan k v.cached_at l
unfolding scan
scan_first k v l = refl

PicksOne-Picks :
    (k : Bytes) (v : CachedAsset) (l : Map CachedAsset) (r : Bytes)
    → Picks k v.cached_at l r
    → PicksOne ((k, v) ∷ l) r
PicksOne-Picks k v l r p = elim p.origin [
  | inl (same, t) ↦ record {
    asset = v;
    there = (zero, ap (λ q. some (q, v)) (sym same));
    least = least_cons k v l v.cached_at (omega arith) (λ q b m. omega (arith, p.least q b m));
  }
  | inr (a, (i, e), t) ↦ record {
    asset = a;
    there = (suc i, e);
    least =
        least_cons k v l a.cached_at (omega (arith, p.le_first))
          (λ q b m. omega (arith, p.least q b m));
  }
]

oldest-PicksOne :
    (l : Map CachedAsset) (x : Bytes × CachedAsset) → InList x l → Named l → PicksOne l (oldest l)
unfolding oldest
oldest-PicksOne [] x m n = absurd (cc (m.1))
oldest-PicksOne ((k, v) ∷ l) x m n =
    rw scan_first (PicksOne-Picks k v l (scan k v.cached_at l) (scan-Picks k v.cached_at l n.0 n.1))

-- If a map is not empty and no key in it is, the key that a round picks is stored, and no stored
-- entry is older, in any iteration order that meets each entry and nothing else.
pub oldest-IsOldest :
    (order : ℕ → Map CachedAsset → Map CachedAsset) (n : ℕ) (m : Map CachedAsset)
    → IsRange order
    → NonEmptyKeys m
    → 0 < size m
    → IsOldest m (oldest (order n m))
oldest-IsOldest order n m r named h =
    let (k, v, stored) = lookup_of_pos-size m h in
    let names =
      All-InList (λ e. is_empty e.0 ≡ false) (order n m)
        (λ e there. named e.0 e.1 (r.met n m e.0 e.1 there)) in
    let p = oldest-PicksOne (order n m) (k, v) (r.meets n m k v stored) names in
    let found = r.met n m (oldest (order n m)) p.asset p.there in
    record {
      asset = p.asset;
      stored = found;
      named = named (oldest (order n m)) p.asset found;
      least = λ q b e. p.least q b (r.meets n m q b e);
    }
