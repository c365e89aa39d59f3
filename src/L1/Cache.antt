-- ===== src/L1/Cache.antt =====
-- `type L1Cache` of internal/cache/l1.go: 256 shards, selected by the FNV-1a hash of the key.
-- The array of shards is a function of the index; only the indices below 256 are read.
use Prim.Native.Nat.{bit_xor}
use cache_server_go.Base.{
  ℕ, zero, suc, ◌+◌, ◌*◌, ◌/◌, ◌%◌, ◌^◌, Option, none, some, [], ◌∷◌, Bytes, ltb, if◌then◌else◌,
  ite, ℕ_discrete,
}
use cache_server_go.Base.Maps.{size}
use cache_server_go.L1.Shard.{Shard, new_shard, drop, read, is_expired, set_shard}
use cache_server_go.Metrics.{Metrics, add_l1_hit, add_l1_miss}

abbrev pub num_shards : ℕ
num_shards = 256

pub record L1Cache : Type 0 where
  pub shards : ℕ → Shard
  pub ttl : ℕ

-- `perShard` of `NewL1`
unfoldable pub per_shard : ℕ → ℕ
per_shard max_size = if ltb (max_size / num_shards) 64 then 64 else max_size / num_shards

-- `NewL1`
unfoldable pub new_l1 : ℕ → ℕ → L1Cache
new_l1 max_size ttl = record { shards = λ i. new_shard (per_shard max_size); ttl = ttl }

-- The loop of `getShard` over the bytes of the key, on `uint32`.
unfoldable pub fnv1a_from : ℕ → Bytes → ℕ
fnv1a_from h [] = h
fnv1a_from h (b ∷ bs) = fnv1a_from (bit_xor h b * 16_777_619 % 2 ^ 32) bs

unfoldable pub fnv1a : Bytes → ℕ
unfolding fnv1a_from
fnv1a key = fnv1a_from 2_166_136_261 key

-- `h % numShards` of `getShard`
unfoldable pub shard_index : Bytes → ℕ
unfolding fnv1a
shard_index key = fnv1a key % num_shards

unfoldable pub shard_of : Bytes → L1Cache → Shard
shard_of key c = c.shards (shard_index key)

-- A change of the key's shard in place.
unfoldable pub on_shard : Bytes → (Shard → Shard) → L1Cache → L1Cache
on_shard key f c = record c {
  shards = λ i. ite (ℕ_discrete i (shard_index key)) (f (c.shards i)) (c.shards i);
}

pub record Answer : Type 0 where
  pub cache : L1Cache
  pub metrics : Metrics
  pub value : Option Bytes

-- `Get` at the time `now`, when no other call runs between its read and its lazy deletion.
unfoldable pub get : Bytes → ℕ → L1Cache → Metrics → Answer
get key now c m = elim (read key (shard_of key c)) [
  | none ↦ record { cache = c; metrics = add_l1_miss m; value = none }
  | some e ↦
      if is_expired now e
      then record { cache = on_shard key (drop key) c; metrics = add_l1_miss m; value = none }
      else record { cache = c; metrics = add_l1_hit m; value = some e.value }
]

-- `Set` at the time `now`
unfoldable pub set : Bytes → Bytes → ℕ → L1Cache → L1Cache
set key value now c = on_shard key (set_shard c.ttl key value now) c

-- `Delete`
unfoldable pub delete : Bytes → L1Cache → L1Cache
delete key c = on_shard key (drop key) c

-- The sum of `Stats` over the first `n` shards, and `Stats`.
unfoldable pub total_size : ℕ → L1Cache → ℕ
total_size zero c = 0
total_size (suc n) c = total_size n c + size (c.shards n).items

unfoldable pub stats : L1Cache → ℕ
stats c = total_size num_shards c
