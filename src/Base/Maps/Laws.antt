-- ===== src/Base/Maps/Laws.antt =====
-- What a read gives after a write or a deletion, and how the number of entries changes.
use Prim.Native.Nat.{◌+◌, ◌≤◌, ◌<◌}
use mathlib.Core.List.{[], ◌∷◌}
use mathlib.Core.Logic.{ite, if_pos}
use mathlib.Core.Option.{none, some}
use mathlib.Core.Path.{◌≡◌, refl}
use native.Mathlib.Omega.{arith}
use cache_server_go.Base.Keys.{Bytes, dec_bytes}
use cache_server_go.Base.Maps.Defs.{Map, lookup, insert, delete, size}

module _ {ℓ} {V : Type ℓ} where
  pub lookup-insert :
      (k j : Bytes) (v : V) (m : Map V)
      → lookup j (insert k v m) ≡ ite (dec_bytes k j) (some v) (lookup j m)
  unfolding lookup insert
  lookup-insert k j v [] = refl
  lookup-insert k j v ((i, w) ∷ m) = ground (arith, lookup-insert k j v m)

  pub lookup-delete :
      (k j : Bytes) (m : Map V) → lookup j (delete k m) ≡ ite (dec_bytes k j) none (lookup j m)
  unfolding lookup delete
  lookup-delete k j [] = ground arith
  lookup-delete k j ((i, w) ∷ m) = ground (arith, lookup-delete k j m)

  pub size-insert_new :
      (k : Bytes) (v : V) (m : Map V) → lookup k m ≡ none → size (insert k v m) ≡ size m + 1
  unfolding lookup insert
  size-insert_new k v [] h = omega arith
  size-insert_new k v ((i, w) ∷ m) h = ground (arith, size-insert_new k v m)

  pub size-insert_old :
      (k : Bytes) (v w : V) (m : Map V) → lookup k m ≡ some w → size (insert k v m) ≡ size m
  unfolding lookup insert
  size-insert_old k v w [] h = cc
  size-insert_old k v w ((i, u) ∷ m) h = ground (arith, size-insert_old k v w m)

  pub size-delete-le : (k : Bytes) (m : Map V) → size (delete k m) ≤ size m
  unfolding delete
  size-delete-le k [] = omega arith
  size-delete-le k ((i, w) ∷ m) = ground (arith, size-delete-le k m)

  pub size-delete-lt :
      (k : Bytes) (w : V) (m : Map V) → lookup k m ≡ some w → size (delete k m) < size m
  unfolding lookup delete
  size-delete-lt k w [] h = cc
  size-delete-lt k w ((i, u) ∷ m) h = ground (arith, size-delete-le k m, size-delete-lt k w m)

  -- A map that is not empty has a key.
  pub lookup_of_pos-size : (m : Map V) → 0 < size m → (k : Bytes) × (v : V) × (lookup k m ≡ some v)
  unfolding lookup
  lookup_of_pos-size [] h = absurd (omega arith)
  lookup_of_pos-size ((k, v) ∷ m) h = (k, v, if_pos (dec_bytes k k) refl _ _)
