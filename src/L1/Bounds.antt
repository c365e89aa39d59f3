-- ===== src/L1/Bounds.antt =====
-- Every operation keeps a shard valid: the number of entries never exceeds the shard's bound, and
-- every stored key stays in the ring.
use cache_server_go.Base.{
  ℕ, ◌+◌, ◌≤◌, ◌<◌, ◌≡◌, inl, inr, none, some, [], ◌∷◌, ◌++◌, Bytes, arith, length, length-append,
  get_elem?_last, get_elem?-append, Option-cases, dec_bytes, dec_lt,
}
use cache_server_go.Base.Maps.{
  lookup, insert, delete, has, size, size-delete-lt, size-delete-le, lookup-delete, lookup-insert,
  size-insert_new, size-insert_old, lookup_of_pos-size,
}
use cache_server_go.L1.Shard.{Entry, Shard, new_shard, evict_one, drop, make_room, store, set_shard}
use cache_server_go.L1.Evict.{IsValid, InRing, Evicts, evict_one-Evicts}

-- What `make_room` does on a valid shard: nothing, if the entry then fits, or one eviction of
-- another key.
pub data MakesRoom (key : Bytes) (s t : Shard) : Type 0 where
  kept : t ≡ s → size s.items < s.max_size → MakesRoom key s t
  replaced : t ≡ s → (e : Entry) → lookup key s.items ≡ some e → MakesRoom key s t
  evicted : s.max_size ≤ size s.items → Evicts s t → lookup key s.items ≡ none → MakesRoom key s t

pub make_room-MakesRoom : (key : Bytes) (s : Shard) → IsValid s → MakesRoom key s (make_room key s)
unfolding make_room has
make_room-MakesRoom key s v = elim (Option-cases (lookup key s.items)) [
  | inr (e, found) ↦ replaced (ground arith) e found
  | inl missing ↦ elim (dec_lt (size s.items) s.max_size) [
    | yes p ↦ kept (ground arith) p
    | no p ↦
        let full : size s.items ≡ s.max_size = omega (arith, v.bounded) in
        let (k, e, found) = lookup_of_pos-size s.items (omega (arith, v.positive)) in
        let calls : make_room key s ≡ evict_one s = ground arith in
        rw calls (evicted (omega arith) (evict_one-Evicts s k e v found) missing)
  ]
]

pub new_shard-IsValid : (n : ℕ) → 0 < n → IsValid (new_shard n)
unfolding new_shard lookup
new_shard-IsValid n h = record {
  positive = h;
  bounded = omega arith;
  cursor = omega arith;
  ringed = λ k e q. absurd (cc);
}

pub drop-IsValid : (key : Bytes) (s : Shard) → IsValid s → IsValid (drop key s)
unfolding drop
drop-IsValid key s v = record {
  positive = v.positive;
  bounded = omega (arith, size-delete-le key s.items, v.bounded);
  cursor = v.cursor;
  ringed = λ k e q. v.ringed k e (ground (arith, lookup-delete key k s.items));
}

Evicts-IsValid : {s t : Shard} → IsValid s → Evicts s t → IsValid t
Evicts-IsValid {s} {t} v x = record {
  positive = omega (arith, v.positive, x.max_size);
  bounded = rw (x.items, x.max_size) (omega (arith, size-delete-le x.key s.items, v.bounded));
  cursor = omega (arith, x.cursor);
  ringed = λ k e q. rw x.keys (v.ringed k e (still k e (rw x.items at q)));
}
  where
    still :
        (k : Bytes) (e : Entry)
        → lookup k (delete x.key s.items) ≡ some e
        → lookup k s.items ≡ some e
    still k e q = ground (arith, lookup-delete x.key k s.items)

-- After an eviction there is room for one more entry.
Evicts-has_room : {s t : Shard} → IsValid s → Evicts s t → size t.items < t.max_size
Evicts-has_room {s} v x =
    rw (x.items, x.max_size)
      (omega (arith, size-delete-lt x.key x.entry s.items x.stored, v.bounded))

store-eq-old :
    (key : Bytes) (entry e : Entry) (s : Shard)
    → lookup key s.items ≡ some e
    → store key entry s ≡ record s { items = insert key entry s.items }
unfolding store has
store-eq-old key entry e s h = ground arith

store-eq-new :
    (key : Bytes) (entry : Entry) (s : Shard)
    → lookup key s.items ≡ none
    → store key entry s ≡ record s { keys = s.keys ++ (key ∷ []); items = insert key entry s.items }
unfolding store has
store-eq-new key entry s h = ground arith

-- `store` keeps a shard valid where the key is stored already or one more entry fits.
store_old :
    (key : Bytes) (entry e : Entry) (s : Shard)
    → IsValid s
    → lookup key s.items ≡ some e
    → IsValid (store key entry s)
store_old key entry e s v found = rw (store-eq-old key entry e s found) (record {
  positive = v.positive;
  bounded = rw (size-insert_old key entry e s.items found) v.bounded;
  cursor = v.cursor;
  ringed = ringed;
})
  where
    ringed :
        (k : Bytes) (e' : Entry) → lookup k (insert key entry s.items) ≡ some e' → InRing k s.keys
    ringed k e' q = elim (dec_bytes key k) [
      | yes p ↦ rw (← p) (v.ringed key e found)
      | no p ↦ v.ringed k e' (ground (arith, lookup-insert key k entry s.items))
    ]

store_new :
    (key : Bytes) (entry : Entry) (s : Shard)
    → IsValid s
    → lookup key s.items ≡ none
    → size s.items < s.max_size
    → IsValid (store key entry s)
store_new key entry s v missing room = rw (store-eq-new key entry s missing) (record {
  positive = v.positive;
  bounded = omega (arith, size-insert_new key entry s.items missing);
  cursor = omega (arith, v.cursor, length-append s.keys (key ∷ []));
  ringed = ringed;
})
  where
    ringed :
        (k : Bytes) (e' : Entry)
        → lookup k (insert key entry s.items) ≡ some e'
        → InRing k (s.keys ++ (key ∷ []))
    ringed k e' q = elim (dec_bytes key k) [
      | yes p ↦ (length s.keys, rw p (get_elem?_last s.keys k))
      | no p ↦
          let (i, at_i) = v.ringed k e' (ground (arith, lookup-insert key k entry s.items)) in
          (i, get_elem?-append s.keys (key ∷ []) i k at_i)
    ]

store-IsValid :
    (key : Bytes) (entry : Entry) (s t : Shard)
    → IsValid s
    → MakesRoom key s t
    → IsValid (store key entry t)
store-IsValid key entry s t v (kept e room) = rw e (elim (Option-cases (lookup key s.items)) [
  | inl missing ↦ store_new key entry s v missing room
  | inr (old, found) ↦ store_old key entry old s v found
])
store-IsValid key entry s t v (replaced e old found) = rw e (store_old key entry old s v found)
store-IsValid key entry s t v (evicted full x missing) =
    store_new key entry t (Evicts-IsValid v x) gone (Evicts-has_room v x)
  where
    gone : lookup key t.items ≡ none
    gone = rw x.items (ground (arith, lookup-delete x.key key s.items))

pub set_shard-IsValid :
    (ttl : ℕ) (key value : Bytes) (now : ℕ) (s : Shard)
    → IsValid s
    → IsValid (set_shard ttl key value now s)
unfolding set_shard
set_shard-IsValid ttl key value now s v =
    store-IsValid key (record { value = value; expires_at = now + ttl }) s (make_room key s) v
      (make_room-MakesRoom key s v)
