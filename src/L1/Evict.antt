-- ===== src/L1/Evict.antt =====
-- The eviction loop of a shard: on a valid shard it always finds a stored key.
use native.Mathlib.Nat.{mod-lt, mod-eq_of_lt, mod-eq-sub-mod}
use cache_server_go.Base.{
  ℕ, zero, suc, ◌+◌, ◌-◌, ◌%◌, ◌≤◌, ◌<◌, ◌≡◌, refl, inl, inr, none, some, List, Bytes, arith,
  length, get_elem?, get_elem?_of_lt, lt_of_get_elem?, Option-cases, ◌∙◌, dec_lt, ℕ_discrete,
}
use cache_server_go.Base.Maps.{lookup, delete, has, size}
use cache_server_go.L1.Shard.{Entry, Shard, evict_from, evict_one}

-- The ring names the key at some index.
abbrev pub InRing : Bytes → List Bytes → Type 0
InRing k keys = (i : ℕ) × (get_elem? keys i ≡ some k)

pub record IsValid (s : Shard) : Type 0 where
  pub positive : 0 < s.max_size
  pub bounded : size s.items ≤ s.max_size
  pub cursor : s.evict_idx < suc (length s.keys - 1)
  pub ringed : (k : Bytes) (e : Entry) → lookup k s.items ≡ some e → InRing k s.keys

-- What an eviction of a stored key leaves.
pub record Evicts (s t : Shard) : Type 0 where
  pub key : Bytes
  pub entry : Entry
  pub stored : lookup key s.items ≡ some entry
  pub items : t.items ≡ delete key s.items
  pub keys : t.keys ≡ s.keys
  pub max_size : t.max_size ≡ s.max_size
  pub cursor : t.evict_idx < length t.keys

module _ (s : Shard) (i left : ℕ) (k : Bytes)
    (at_i : get_elem? s.keys ((s.evict_idx + i) % length s.keys) ≡ some k) where
  -- A round that meets a key which is not stored goes on.
  evict_from-skip : lookup k s.items ≡ none → evict_from s i (suc left) ≡ evict_from s (i + 1) left
  unfolding evict_from has
  evict_from-skip h = ground arith

  evict_from-stop :
      (e : Entry)
      → lookup k s.items ≡ some e
      → evict_from s i (suc left) ≡ record s {
        items = delete k s.items;
        evict_idx = ((s.evict_idx + i) % length s.keys + 1) % length s.keys;
      }
  unfolding evict_from has
  evict_from-stop e h = ground arith

  -- A round that meets a stored key evicts it.
  evict_from-Evicts :
      (e : Entry)
      → 0 < length s.keys
      → lookup k s.items ≡ some e
      → Evicts s (evict_from s i (suc left))
  evict_from-Evicts e n h = rw (evict_from-stop e h) (record {
    key = k;
    entry = e;
    stored = h;
    items = refl;
    keys = refl;
    max_size = refl;
    cursor = mod-lt _ n;
  })

module _ (s : Shard) (nonempty : 0 < length s.keys) (j : ℕ) (k : Bytes) (e : Entry)
    (at_j : get_elem? s.keys ((s.evict_idx + j) % length s.keys) ≡ some k)
    (stored : lookup k s.items ≡ some e) where
  -- From a round at or before the one that meets a stored key, the loop evicts something.
  evict_from_hits : (i left : ℕ) → i ≤ j → j < i + left → Evicts s (evict_from s i left)
  evict_from_hits i zero h l = absurd (omega arith)
  evict_from_hits i (suc left) h l =
      let (key, at_i) =
        get_elem?_of_lt s.keys ((s.evict_idx + i) % length s.keys) (mod-lt _ nonempty) in
      elim (Option-cases (lookup key s.items)) [
        | inr (entry, found) ↦ evict_from-Evicts s i left key at_i entry nonempty found
        | inl missing ↦
            rw (evict_from-skip s i left key at_i missing)
              (evict_from_hits (i + 1) left (later key at_i missing) (omega arith))
      ]
    where
      later :
          (key : Bytes)
          → get_elem? s.keys ((s.evict_idx + i) % length s.keys) ≡ some key
          → lookup key s.items ≡ none
          → i + 1 ≤ j
      later key at_i missing = elim (ℕ_discrete i j) [
        | yes p ↦ absurd (clash (rw p at at_i))
        | no p ↦ omega arith
      ]
        where
          clash : get_elem? s.keys ((s.evict_idx + j) % length s.keys) ≡ some key → ⊥
          clash q = cc

-- The round of the loop that looks at index `t` of the ring.
module _ (s : Shard) (t : ℕ) (below : t < length s.keys)
    (v : s.evict_idx < suc (length s.keys - 1)) where
  round_of : (j : ℕ) × (j < length s.keys) × ((s.evict_idx + j) % length s.keys ≡ t)
  round_of = elim (dec_lt t s.evict_idx) [
    | yes p ↦ (
      t + length s.keys - s.evict_idx,
      omega arith,
      wrap (s.evict_idx + (t + length s.keys - s.evict_idx)) (omega arith),
    )
    | no p ↦ (t - s.evict_idx, omega arith, flat (s.evict_idx + (t - s.evict_idx)) (omega arith))
  ]
    where
      flat : (x : ℕ) → x ≡ t → x % length s.keys ≡ t
      flat x e = rw e (mod-eq_of_lt below)

      wrap : (x : ℕ) → x ≡ t + length s.keys → x % length s.keys ≡ t
      wrap x e =
          mod-eq-sub-mod {n = x} {m = length s.keys} (omega arith)
          ∙ flat (x - length s.keys) (omega arith)

-- On a valid shard that stores something, `evict_one` deletes exactly one stored key and leaves the
-- ring, its bound and a cursor inside the ring.
pub evict_one-Evicts :
    (s : Shard) (k : Bytes) (e : Entry)
    → IsValid s
    → lookup k s.items ≡ some e
    → Evicts s (evict_one s)
unfolding evict_one
evict_one-Evicts s k e v stored =
    let (t, at_t) = v.ringed k e stored in
    let below = lt_of_get_elem? s.keys t k at_t in
    let (j, lt, eq) = round_of s t below v.cursor in
    evict_from_hits s (omega arith) j k e (rw eq at_t) stored 0 (length s.keys) (omega arith)
      (omega arith)
