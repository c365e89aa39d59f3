-- ===== src/L1/Reads.antt =====
-- What can be read from a shard, and from the whole cache, after a write or a deletion.
use mathlib.Core.Option.{some-injective}
use cache_server_go.Base.{
  ℕ, ◌+◌, ◌≤◌, ◌≡◌, refl, ◌≢◌, ite, if_pos, Option, none, some, Bytes, arith, dec_bytes, ℕ_discrete,
  ◌∙◌, ap,
}
use cache_server_go.Base.Maps.{lookup, size, lookup-delete, lookup-insert}
use cache_server_go.L1.Shard.{Entry, Shard, drop, read, make_room, store, set_shard}
use cache_server_go.L1.Cache.{L1Cache, shard_index, shard_of, on_shard, set}
use cache_server_go.L1.Evict.{IsValid, Evicts}
use cache_server_go.L1.Bounds.{MakesRoom, kept, replaced, evicted, make_room-MakesRoom}

-- A read with the evicted key, if there is one, taken away.
abbrev pub without {ℓ} : {A : Type ℓ} → Option Bytes → Bytes → Option A → Option A
without none q r = r
without (some k) q r = ite (dec_bytes k q) none r

-- What a write of `entry` at `key` leaves: the entry at the key, and at every other key what stood
-- there, but for at most one victim, which is another key, stored in a full shard.
pub record Stores (key : Bytes) (entry : Entry) (s t : Shard) : Type 0 where
  pub victim : Option Bytes
  pub reads :
      (q : Bytes) → read q t ≡ ite (dec_bytes key q) (some entry) (without victim q (read q s))
  pub only_full :
      (k : Bytes)
      → victim ≡ some k
      → (s.max_size ≤ size s.items) × (read key s ≡ none) × (read k s ≢ none)
  pub max_size : t.max_size ≡ s.max_size

store-reads :
    (key q : Bytes) (entry : Entry) (t : Shard)
    → read q (store key entry t) ≡ ite (dec_bytes key q) (some entry) (read q t)
unfolding store read
store-reads key q entry t = lookup-insert key q entry t.items

store-max_size :
    (key : Bytes) (entry : Entry) (t : Shard) → (store key entry t).max_size ≡ t.max_size
unfolding store
store-max_size key entry t = refl

Evicts-reads :
    {s t : Shard} (x : Evicts s t) (q : Bytes) → read q t ≡ without (some x.key) q (read q s)
unfolding read
Evicts-reads {s} x q = rw x.items (lookup-delete x.key q s.items)

Evicts-stored : {s t : Shard} (x : Evicts s t) (k : Bytes) → x.key ≡ k → read k s ≢ none
unfolding read
Evicts-stored {s} x k e = λ h. absurd (clash (rw (← e) at h))
  where
    clash : lookup x.key s.items ≡ none → ⊥
    clash h = cc (x.stored)

store-Stores :
    (key : Bytes) (entry : Entry) (s t : Shard)
    → MakesRoom key s t
    → Stores key entry s (store key entry t)
unfolding read
store-Stores key entry s t (kept e room) = record {
  victim = none;
  reads = λ q. rw e (store-reads key q entry s);
  only_full = λ k h. absurd (cc);
  max_size = rw e (store-max_size key entry s);
}
store-Stores key entry s t (replaced e old found) = record {
  victim = none;
  reads = λ q. rw e (store-reads key q entry s);
  only_full = λ k h. absurd (cc);
  max_size = rw e (store-max_size key entry s);
}
store-Stores key entry s t (evicted full x missing) = record {
  victim = some x.key;
  reads =
      λ q. store-reads key q entry t ∙ ap (ite (dec_bytes key q) (some entry)) (Evicts-reads x q);
  only_full = λ k h. (full, missing, Evicts-stored x k (some-injective _ _ h));
  max_size = store-max_size key entry t ∙ x.max_size;
}

pub set_shard-Stores :
    (ttl : ℕ) (key value : Bytes) (now : ℕ) (s : Shard)
    → IsValid s
    → Stores key
        (record { value = value; expires_at = now + ttl })
        s
        (set_shard ttl key value now s)
unfolding set_shard
set_shard-Stores ttl key value now s v =
    store-Stores key (record { value = value; expires_at = now + ttl }) s (make_room key s)
      (make_room-MakesRoom key s v)

pub read-drop :
    (key q : Bytes) (s : Shard) → read q (drop key s) ≡ ite (dec_bytes key q) none (read q s)
unfolding read drop
read-drop key q s = lookup-delete key q s.items

-- A change of one key's shard is seen by the keys of that shard alone.
pub shard_of-on_shard :
    (key q : Bytes) (f : Shard → Shard) (c : L1Cache)
    → shard_of q (on_shard key f c)
      ≡ ite (ℕ_discrete (shard_index q) (shard_index key)) (f (shard_of q c)) (shard_of q c)
unfolding shard_of on_shard
shard_of-on_shard key q f c = refl

pub shard_of-on_shard_self :
    (key : Bytes) (f : Shard → Shard) (c : L1Cache)
    → shard_of key (on_shard key f c) ≡ f (shard_of key c)
shard_of-on_shard_self key f c = shard_of-on_shard key key f c ∙ if_pos (ℕ_discrete _ _) refl _ _

-- A deletion is seen at its key alone.
pub read-on_shard-drop :
    (key q : Bytes) (c : L1Cache)
    → read q (shard_of q (on_shard key (drop key) c))
      ≡ ite (dec_bytes key q) none (read q (shard_of q c))
read-on_shard-drop key q c =
    rw shard_of-on_shard (ground (arith, read-drop key q (shard_of q c), ap shard_index))

-- What a `Set` of `entry` at `key` changes for the readers of the whole cache: the key gives the
-- entry; at most one other key, of the key's own shard, is lost, and only if that shard is full and
-- the key new to it.
pub record SetReads (key : Bytes) (entry : Entry) (c c' : L1Cache) : Type 0 where
  pub victim : Option Bytes
  pub reads :
      (q : Bytes)
      → read q (shard_of q c')
        ≡ ite (dec_bytes key q) (some entry) (
            ite
              (ℕ_discrete (shard_index q) (shard_index key))
              (without victim q (read q (shard_of q c)))
              (read q (shard_of q c)))
  pub only_full :
      (k : Bytes)
      → victim ≡ some k
      → ((shard_of key c).max_size ≤ size (shard_of key c).items)
        × (read key (shard_of key c) ≡ none)
        × (read k (shard_of key c) ≢ none)

same_shard :
    (key q : Bytes) (c : L1Cache) → shard_index q ≡ shard_index key → shard_of q c ≡ shard_of key c
unfolding shard_of
same_shard key q c e = ap c.shards e

-- A `Set` on a valid shard stores its entry, with the expiry `now + ttl`. Every other key reads as
-- before, but for one at most, of the same shard, which is evicted only if the shard was full and
-- the key new.
pub set-SetReads :
    (key value : Bytes) (now : ℕ) (c : L1Cache)
    → IsValid (shard_of key c)
    → SetReads key (record { value = value; expires_at = now + c.ttl }) c (set key value now c)
unfolding set
set-SetReads key value now c v = record {
  victim = x.victim;
  reads = reads;
  only_full = x.only_full;
}
  where
    x :
        Stores key
          (record { value = value; expires_at = now + c.ttl })
          (shard_of key c)
          (set_shard c.ttl key value now (shard_of key c))
    x = set_shard-Stores c.ttl key value now (shard_of key c) v

    reads :
        (q : Bytes)
        → read q (shard_of q (on_shard key (set_shard c.ttl key value now) c))
          ≡ ite (dec_bytes key q) (some (record { value = value; expires_at = now + c.ttl })) (
              ite
                (ℕ_discrete (shard_index q) (shard_index key))
                (without x.victim q (read q (shard_of q c)))
                (read q (shard_of q c)))
    reads q = elim (ℕ_discrete (shard_index q) (shard_index key)) [
      | yes p ↦ rw (shard_of-on_shard, if_pos _ p, if_pos _ p, same_shard key q c p) (x.reads q)
      | no p ↦ rw (shard_of-on_shard) (ground (arith, ap shard_index))
    ]
