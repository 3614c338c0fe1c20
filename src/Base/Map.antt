-- ===== src/Base/Map.antt =====
-- A Go map from strings, as an association list that an insertion updates in place. What a `range`
-- over the map visits is the list; statements about a range do not depend on its order.
use mathlib.Core.Path.{◌≡◌, refl}
use mathlib.Core.Logic.{inl, inr}
use mathlib.Core.List.{List, [], ◌∷◌}
use mathlib.Core.Option.{Option, none, some}
use native.Mathlib.Omega.{arith}
use nell_db.Base.Tests.{if◌then◌else◌}
use nell_db.Base.Lists.{Has}
use nell_db.Base.Bytes.{Bytes, eqb, eqb_iff, eqb_refl}

abbrev pub Map : Type 0 → Type 0
Map V = List (Bytes × V)

module _ {V : Type 0} where
  unfoldable pub lookup : Bytes → Map V → Option V
  lookup k [] = none
  lookup k ((j, v) ∷ m) = if eqb j k then some v else lookup k m

  unfoldable pub insert : Bytes → V → Map V → Map V
  insert k v [] = (k, v) ∷ []
  insert k v ((j, w) ∷ m) = if eqb j k then (k, v) ∷ m else (j, w) ∷ insert k v m

  unfoldable pub delete : Bytes → Map V → Map V
  delete k [] = []
  delete k ((j, w) ∷ m) = let rest = delete k m in if eqb j k then rest else (j, w) ∷ rest

  -- Every key stands once, which a Go map gives.
  abbrev pub Distinct : Map V → Type 0
  Distinct [] = Unit {0}
  Distinct ((k, v) ∷ m) = (lookup k m ≡ none) × Distinct m

  pub lookup-insert :
      (k j : Bytes) (v : V) (m : Map V)
      → lookup j (insert k v m) ≡ (if eqb k j then some v else lookup j m)
  unfolding lookup insert
  lookup-insert k j v [] = refl
  lookup-insert k j v ((i, w) ∷ m) =
      ground (arith, eqb_iff k j, eqb_iff i k, eqb_iff i j, lookup-insert k j v m)

  pub lookup-delete :
      (k j : Bytes) (m : Map V) → lookup j (delete k m) ≡ (if eqb k j then none else lookup j m)
  unfolding lookup delete
  lookup-delete k j [] = ground arith
  lookup-delete k j ((i, w) ∷ m) =
      ground (arith, eqb_iff k j, eqb_iff i k, eqb_iff i j, lookup-delete k j m)

  pub insert-Distinct : (k : Bytes) (v : V) (m : Map V) → Distinct m → Distinct (insert k v m)
  unfolding insert lookup
  insert-Distinct k v [] d = (refl, tt)
  insert-Distinct k v ((i, w) ∷ m) d =
      ground (arith, lookup-insert k i v m, eqb_iff i k, eqb_iff k i, insert-Distinct k v m d.1)

  pub delete-Distinct : (k : Bytes) (m : Map V) → Distinct m → Distinct (delete k m)
  unfolding delete
  delete-Distinct k [] d = tt
  delete-Distinct k ((i, w) ∷ m) d = ground (arith, lookup-delete k i m, delete-Distinct k m d.1)

  -- What a range meets is what a lookup finds.
  pub Has-lookup : (k : Bytes) (v : V) (m : Map V) → lookup k m ≡ some v → Has (k, v) m
  unfolding lookup
  Has-lookup k v [] h = cc
  Has-lookup k v ((i, w) ∷ m) h = ground (arith, eqb_iff i k, Has-lookup k v m)

  pub lookup-Has : (k : Bytes) (v : V) (m : Map V) → Distinct m → Has (k, v) m → lookup k m ≡ some v
  unfolding lookup
  lookup-Has k v [] d h = absurd h
  lookup-Has k v ((i, w) ∷ m) d (inl e) = ground (arith, eqb_refl k)
  lookup-Has k v ((i, w) ∷ m) d (inr h) = ground (arith, eqb_iff i k, lookup-Has k v m d.1 h)
