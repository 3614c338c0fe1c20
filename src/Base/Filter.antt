-- ===== src/Base/Filter.antt =====
-- Filtered lists, and the part of a list from the place on where a test holds.
use Prim.Native.Nat.{ℕ, zero, suc, ◌≤◌, ◌<◌}
use mathlib.Core.Path.{◌≡◌, refl, ap}
use mathlib.Core.Logic.{inl, inr}
use mathlib.Core.List.{List, [], ◌∷◌}
use mathlib.Core.Bool.{Bool, true, false}
use mathlib.Core.Option.{Option, none, some}
use native.Mathlib.Omega.{arith}
use nell_db.Base.Tests.{Bool-cases}
use nell_db.Base.Lists.{length, get_elem?, drop, filter, All, Has}

module _ {A : Type 0} (p : A → Bool) where
  pub Has-filter : (a : A) (xs : List A) → Has a xs → p a ≡ true → Has a (filter p xs)
  Has-filter a [] h e = absurd h
  Has-filter a (x ∷ xs) (inl q) e = rw (q, e) (inl refl)
  Has-filter a (x ∷ xs) (inr h) e = elim (Bool-cases (p x)) [
    | inl t ↦ rw t (inr (Has-filter a xs h e))
    | inr t ↦ rw t (Has-filter a xs h e)
  ]

  pub filter-Has : (a : A) (xs : List A) → Has a (filter p xs) → Has a xs × (p a ≡ true)
  filter-Has a [] h = absurd h
  filter-Has a (x ∷ xs) h = elim (Bool-cases (p x)) [
    | inl t ↦ elim (rw t at h) [
      | inl q ↦ (inl q, rw (← q) t)
      | inr g ↦ let (i, j) = filter-Has a xs g in (inr i, j)
    ]
    | inr t ↦ let (i, j) = filter-Has a xs (rw t at h) in (inr i, j)
  ]

  pub All-filter {κ} : (Q : A → Type κ) (xs : List A) → All Q xs → All Q (filter p xs)
  All-filter Q [] h = tt
  All-filter Q (x ∷ xs) h = elim (Bool-cases (p x)) [
    | inl t ↦ rw t (h.0, All-filter Q xs h.1)
    | inr t ↦ rw t (All-filter Q xs h.1)
  ]

  abbrev pub holds_at : Option A → Bool
  holds_at none = true
  holds_at (some a) = p a

  filter_all :
      (xs : List A)
      → ((k : ℕ) → k < length xs → holds_at (get_elem? xs k) ≡ true)
      → xs ≡ filter p xs
  filter_all [] h = refl
  filter_all (x ∷ xs) h =
      rw (h 0 (omega arith)) (ap (◌∷◌ x) (filter_all xs (λ k lt. h (suc k) (omega arith))))

  -- Dropping the part of a list before the place where a test starts to hold is filtering by it.
  pub drop-filter :
      (r : ℕ) (xs : List A)
      → ((k : ℕ) → k < r → k < length xs → holds_at (get_elem? xs k) ≡ false)
      → ((k : ℕ) → r ≤ k → k < length xs → holds_at (get_elem? xs k) ≡ true)
      → drop r xs ≡ filter p xs
  drop-filter zero xs lo hi = filter_all xs (λ k lt. hi k (omega arith) lt)
  drop-filter (suc r) [] lo hi = refl
  drop-filter (suc r) (x ∷ xs) lo hi = rw (lo 0 (omega arith) (omega arith)) (
      drop-filter r xs (λ k a b. lo (suc k) (omega arith) (omega arith))
        (λ k a b. hi (suc k) (omega arith) (omega arith)))
