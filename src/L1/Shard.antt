-- ===== src/L1/Shard.antt =====
-- One shard of internal/cache/l1.go: its record, the eviction, and the writes and deletions under
-- its lock. Times are nanoseconds.
use cache_server_go.Base.{
  ℕ, zero, suc, ◌+◌, ◌%◌, Bool, ◌&&◌, not, Option, none, some, List, [], ◌∷◌, ◌++◌, Bytes, ltb, leb,
  if◌then◌else◌, length, get_elem?,
}
use cache_server_go.Base.Maps.{Map, lookup, insert, delete, has, size}

pub record Entry : Type 0 where
  pub value : Bytes
  pub expires_at : ℕ

pub record Shard : Type 0 where
  pub items : Map Entry
  pub max_size : ℕ
  pub evict_idx : ℕ
  pub keys : List Bytes

-- A shard as `NewL1` makes it.
unfoldable pub new_shard : ℕ → Shard
new_shard per_shard = record { items = []; max_size = per_shard; evict_idx = 0; keys = [] }

-- The loop of `evictOne` from round `i` on, with `left` rounds to go. The index is taken modulo
-- the length, so the read is inside the bounds whenever the loop runs (`evict_from_hits` in
-- L1/Evict.antt).
unfoldable pub evict_from : Shard → ℕ → ℕ → Shard
unfolding has
evict_from s i zero = s
evict_from s i (suc left) =
    let rest = evict_from s (i + 1) left in
    let idx = (s.evict_idx + i) % length s.keys in
    elim (get_elem? s.keys idx) [
      | none ↦ s
      | some key ↦
          if has key s.items
          then record s { items = delete key s.items; evict_idx = (idx + 1) % length s.keys }
          else rest
    ]

-- `evictOne`
unfoldable pub evict_one : Shard → Shard
evict_one s = evict_from s 0 (length s.keys)

-- The deletion under the lock, of `Delete` and of the lazy deletion of `Get`.
unfoldable pub drop : Bytes → Shard → Shard
drop key s = record s { items = delete key s.items }

-- The entry that `Get` reads under the read lock, and its answer: the value, and whether the entry
-- has expired at `now`.
unfoldable pub read : Bytes → Shard → Option Entry
read key s = lookup key s.items

unfoldable pub is_expired : ℕ → Entry → Bool
is_expired now e = ltb e.expires_at now

-- `if len(shard.items) >= shard.maxSize { if !exists { evictOne } }`
unfoldable pub make_room : Bytes → Shard → Shard
unfolding has
make_room key s = if leb s.max_size (size s.items) && not (has key s.items) then evict_one s else s

-- The rest of `Set`: the key joins the ring if it is new, and the entry is stored.
unfoldable pub store : Bytes → Entry → Shard → Shard
unfolding has
store key entry s = record s {
  keys = if has key s.items then s.keys else s.keys ++ (key ∷ []);
  items = insert key entry s.items;
}

-- `Set` on the key's shard, at the time `now`.
unfoldable pub set_shard : ℕ → Bytes → Bytes → ℕ → Shard → Shard
set_shard ttl key value now s =
    store key (record { value = value; expires_at = now + ttl }) (make_room key s)
