-- ===== src/Base/Maps.antt =====
-- Go maps as association lists. Go leaves the order of a range loop open: the order of the list
-- stands for the order of one such loop, and theorems hold for every list.
use mathlib.Core.Path.{◌≡◌, refl}
use mathlib.Core.Option.{Option, none, some}
use mathlib.Core.List.{List, [], ◌∷◌}
use native.Mathlib.Omega.{arith}
use gvisor_tap_vsock.Base.Tests.{Comparable, ◌==◌, ==_refl, if◌then◌else◌, Bool-cases}

abbrev pub GoMap {ℓ κ} : Type ℓ → Type κ → Type (ℓ ⊔ κ)
GoMap K V = List (K × V)

module _ {ℓ κ} {K : Type ℓ} {V : Type κ} ⦃e : Comparable K⦄ where
  -- v, ok := m[k]
  unfoldable pub lookup : K → GoMap K V → Option V
  lookup k [] = none
  lookup k ((other, v) ∷ entries) = if other == k then some v else lookup k entries

  -- m[k] = v
  unfoldable pub insert : K → V → GoMap K V → GoMap K V
  insert k v [] = (k, v) ∷ []
  insert k v ((other, old) ∷ entries) =
      if other == k then (other, v) ∷ entries else (other, old) ∷ insert k v entries

  -- delete(m, k)
  unfoldable pub delete : K → GoMap K V → GoMap K V
  delete k [] = []
  delete k ((other, old) ∷ entries) =
      let rest = delete k entries in if other == k then rest else (other, old) ∷ rest

  pub lookup-insert :
      (k other : K) (v : V) (entries : GoMap K V)
      → lookup other (insert k v entries) ≡ (if k == other then some v else lookup other entries)
  unfolding lookup insert
  lookup-insert k other v [] = refl
  lookup-insert k other v ((first, old) ∷ entries) = ground (
    arith,
    e.equals_iff k other,
    e.equals_iff first k,
    e.equals_iff first other,
    lookup-insert k other v entries,
  )

  pub lookup-delete :
      (k other : K) (entries : GoMap K V)
      → lookup other (delete k entries) ≡ (if k == other then none else lookup other entries)
  unfolding lookup delete
  lookup-delete k other [] = ground arith
  lookup-delete k other ((first, old) ∷ entries) = ground (
    arith,
    e.equals_iff k other,
    e.equals_iff first k,
    e.equals_iff first other,
    lookup-delete k other entries,
  )

  pub lookup-insert_self :
      (k : K) (v : V) (entries : GoMap K V) → lookup k (insert k v entries) ≡ some v
  lookup-insert_self k v entries = rw (lookup-insert k k v entries, ==_refl k)

  -- No key stands twice.
  abbrev pub KeysDistinct : GoMap K V → Type (ℓ ⊔ κ)
  KeysDistinct [] = Unit
  KeysDistinct ((j, v) ∷ m) = (lookup j m ≡ none) × KeysDistinct m

  pub insert-KeysDistinct :
      (k : K) (v : V) (m : GoMap K V) → KeysDistinct m → KeysDistinct (insert k v m)
  unfolding insert lookup
  insert-KeysDistinct k v [] h = (refl, tt)
  insert-KeysDistinct k v ((j, w) ∷ m) h = ground (
    arith,
    insert-KeysDistinct k v m h.1,
    lookup-insert k j v m,
    e.equals_iff j k,
    e.equals_iff k j,
  )

  pub delete-KeysDistinct : (k : K) (m : GoMap K V) → KeysDistinct m → KeysDistinct (delete k m)
  unfolding delete
  delete-KeysDistinct k [] h = tt
  delete-KeysDistinct k ((j, w) ∷ m) h =
      ground (arith, delete-KeysDistinct k m h.1, lookup-delete k j m)

pub ruleset map_laws = (lookup-insert, lookup-delete, ==_refl)
