-- ===== src/Base/Maps/Totals.antt =====
-- Maps without repeated keys, and a sum over the entries of a map.
use Prim.Native.Nat.{ℕ, ◌+◌}
use mathlib.Core.List.{[], ◌∷◌}
use mathlib.Core.Option.{none, some}
use mathlib.Core.Path.{◌≡◌, refl}
use native.Mathlib.Omega.{arith}
use cache_server_go.Base.Keys.{Bytes}
use cache_server_go.Base.Maps.Defs.{Map, lookup, insert, delete}
use cache_server_go.Base.Maps.Laws.{lookup-insert, lookup-delete}

module _ {ℓ} {V : Type ℓ} where
  -- No key stands twice, as in every Go map.
  abbrev pub HasUniqueKeys : Map V → Type ℓ
  HasUniqueKeys [] = Unit
  HasUniqueKeys ((k, v) ∷ m) = (lookup k m ≡ none) × HasUniqueKeys m

  unfoldable pub sum_by : (V → ℕ) → Map V → ℕ
  sum_by w [] = 0
  sum_by w ((k, v) ∷ m) = w v + sum_by w m

  pub insert-HasUniqueKeys :
      (k : Bytes) (v : V) (m : Map V) → HasUniqueKeys m → HasUniqueKeys (insert k v m)
  unfolding insert lookup
  insert-HasUniqueKeys k v [] u = (refl, tt)
  insert-HasUniqueKeys k v ((j, w) ∷ m) u =
      ground (arith, insert-HasUniqueKeys k v m, lookup-insert k j v m)

  pub delete-HasUniqueKeys : (k : Bytes) (m : Map V) → HasUniqueKeys m → HasUniqueKeys (delete k m)
  unfolding delete
  delete-HasUniqueKeys k [] u = tt
  delete-HasUniqueKeys k ((j, w) ∷ m) u =
      ground (arith, delete-HasUniqueKeys k m, lookup-delete k j m)

  pub delete_absent : (k : Bytes) (m : Map V) → lookup k m ≡ none → delete k m ≡ m
  unfolding lookup delete
  delete_absent k [] h = refl
  delete_absent k ((j, w) ∷ m) h = ground (arith, delete_absent k m)

  pub sum_by-delete :
      (f : V → ℕ) (k : Bytes) (v : V) (m : Map V)
      → HasUniqueKeys m
      → lookup k m ≡ some v
      → sum_by f (delete k m) + f v ≡ sum_by f m
  unfolding lookup delete sum_by
  sum_by-delete f k v [] u h = cc
  sum_by-delete f k v ((j, w) ∷ m) u h = ground (arith, sum_by-delete f k v m, delete_absent k m)

  pub sum_by-insert_new :
      (f : V → ℕ) (k : Bytes) (v : V) (m : Map V)
      → lookup k m ≡ none
      → sum_by f (insert k v m) ≡ sum_by f m + f v
  unfolding lookup insert sum_by
  sum_by-insert_new f k v [] h = omega arith
  sum_by-insert_new f k v ((j, w) ∷ m) h = ground (arith, sum_by-insert_new f k v m)

  pub sum_by-insert_old :
      (f : V → ℕ) (k : Bytes) (v old : V) (m : Map V)
      → lookup k m ≡ some old
      → sum_by f (insert k v m) + f old ≡ sum_by f m + f v
  unfolding lookup insert sum_by
  sum_by-insert_old f k v old [] h = cc
  sum_by-insert_old f k v old ((j, w) ∷ m) h = ground (arith, sum_by-insert_old f k v old m)
