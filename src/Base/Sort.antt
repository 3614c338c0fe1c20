-- ===== src/Base/Sort.antt =====
-- The standard library's `sort.Slice` and `sort.Search`. `sort.Slice` is an insertion sort here: for
-- a comparison that tells all the elements apart every sorting algorithm has the same result.
-- `sort.Search` is its binary search, on fuel.
use Prim.Native.Nat.{ℕ, zero, suc, ◌+◌, ◌/◌, ◌≤◌, ◌<◌}
use mathlib.Core.Path.{◌≡◌}
use mathlib.Core.Logic.{◌⊎◌, inl, inr}
use mathlib.Core.Bool.{Bool, true, false}
use mathlib.Core.List.{List, [], ◌∷◌}
use native.Mathlib.Omega.{arith}
use nell_db.Base.Tests.{ltb, ltb→lt, lt→ltb, if◌then◌else◌, Bool-cases}
use nell_db.Base.Filter.{All-filter}
use nell_db.Base.Lists.{filter, Has, All}

module _ {A : Type 0} (less : A → A → Bool) where
  unfoldable pub insert_sorted : A → List A → List A
  insert_sorted x [] = x ∷ []
  insert_sorted x (y ∷ ys) = if less y x then y ∷ insert_sorted x ys else x ∷ (y ∷ ys)

  unfoldable pub sort : List A → List A
  sort [] = []
  sort (x ∷ xs) = insert_sorted x (sort xs)

  -- No element is less than one that stands before it.
  abbrev pub Sorted : List A → Type 0
  Sorted [] = Unit {0}
  Sorted (x ∷ xs) = All (λ y. less y x ≡ false) xs × Sorted xs

  pub Sorted-filter : (p : A → Bool) (xs : List A) → Sorted xs → Sorted (filter p xs)
  Sorted-filter p [] s = tt
  Sorted-filter p (x ∷ xs) s = elim (Bool-cases (p x)) [
    | inl t ↦ rw t (All-filter p (λ y. less y x ≡ false) xs s.0, Sorted-filter p xs s.1)
    | inr t ↦ rw t (Sorted-filter p xs s.1)
  ]

  Has-insert_sorted : (a x : A) (ys : List A) → (x ≡ a) ⊎ Has a ys → Has a (insert_sorted x ys)
  unfolding insert_sorted
  Has-insert_sorted a x [] h = h
  Has-insert_sorted a x (y ∷ ys) h = elim (Bool-cases (less y x)) [
    | inl e ↦ rw e (elim h [
      | inl p ↦ inr (Has-insert_sorted a x ys (inl p))
      | inr (inl p) ↦ inl p
      | inr (inr p) ↦ inr (Has-insert_sorted a x ys (inr p))
    ])
    | inr e ↦ rw e h
  ]

  insert_sorted-Has : (a x : A) (ys : List A) → Has a (insert_sorted x ys) → (x ≡ a) ⊎ Has a ys
  unfolding insert_sorted
  insert_sorted-Has a x [] h = h
  insert_sorted-Has a x (y ∷ ys) h = elim (Bool-cases (less y x)) [
    | inl e ↦ elim (rw e at h) [
      | inl p ↦ inr (inl p)
      | inr p ↦ elim (insert_sorted-Has a x ys p) [ inl q ↦ inl q | inr q ↦ inr (inr q) ]
    ]
    | inr e ↦ rw e at h
  ]

  pub Has-sort : (a : A) (xs : List A) → Has a xs → Has a (sort xs)
  unfolding sort
  Has-sort a [] h = h
  Has-sort a (x ∷ xs) (inl e) = Has-insert_sorted a x (sort xs) (inl e)
  Has-sort a (x ∷ xs) (inr h) = Has-insert_sorted a x (sort xs) (inr (Has-sort a xs h))

  pub sort-Has : (a : A) (xs : List A) → Has a (sort xs) → Has a xs
  unfolding sort
  sort-Has a [] h = h
  sort-Has a (x ∷ xs) h = elim (insert_sorted-Has a x (sort xs) h) [
    | inl e ↦ inl e
    | inr g ↦ inr (sort-Has a xs g)
  ]

  module _ (asymm : (a b : A) → less a b ≡ true → less b a ≡ false)
      (trans_not : (a b c : A) → less a b ≡ false → less b c ≡ false → less a c ≡ false) where
    All-insert_sorted :
        (y x : A) (ys : List A)
        → less x y ≡ false
        → All (λ z. less z y ≡ false) ys
        → All (λ z. less z y ≡ false) (insert_sorted x ys)
    unfolding insert_sorted
    All-insert_sorted y x [] h a = (h, tt)
    All-insert_sorted y x (z ∷ zs) h a = elim (Bool-cases (less z x)) [
      | inl e ↦ rw e (a.0, All-insert_sorted y x zs h a.1)
      | inr e ↦ rw e (h, a)
    ]

    All-weaken :
        (y x : A) (ys : List A)
        → less y x ≡ false
        → All (λ z. less z y ≡ false) ys
        → All (λ z. less z x ≡ false) ys
    All-weaken y x [] h a = tt
    All-weaken y x (z ∷ zs) h a = (trans_not z y x a.0 h, All-weaken y x zs h a.1)

    insert_sorted-Sorted : (x : A) (ys : List A) → Sorted ys → Sorted (insert_sorted x ys)
    unfolding insert_sorted
    insert_sorted-Sorted x [] s = (tt, tt)
    insert_sorted-Sorted x (y ∷ ys) s = elim (Bool-cases (less y x)) [
      | inl e ↦ rw e (All-insert_sorted y x ys (asymm y x e) s.0, insert_sorted-Sorted x ys s.1)
      | inr e ↦ rw e ((e, All-weaken y x ys e s.0), s)
    ]

    pub sort-Sorted : (xs : List A) → Sorted (sort xs)
    unfolding sort
    sort-Sorted [] = tt
    sort-Sorted (x ∷ xs) = insert_sorted-Sorted x (sort xs) (sort-Sorted xs)

-- `i, j := 0, n; for i < j { h := (i + j) / 2; if !f(h) { i = h + 1 } else { j = h } }; return i`
search_from : ℕ → (ℕ → Bool) → ℕ → ℕ → ℕ
search_from zero f i j = i
search_from (suc fuel) f i j =
    let h = (i + j) / 2 in
    let right = search_from fuel f (h + 1) j in
    let left = search_from fuel f i h in if ltb i j then (if f h then left else right) else i

-- Every round shortens the interval, so `n` rounds are enough.
unfoldable pub search_index : ℕ → (ℕ → Bool) → ℕ
unfolding search_from
search_index n f = search_from n f 0 n

-- `r` is the least index below `n` at which `f` holds, or `n`.
pub record IsBoundary (f : ℕ → Bool) (n r : ℕ) : Type 0 where
  pub before : (k : ℕ) → k < r → f k ≡ false
  pub after : (k : ℕ) → r ≤ k → k < n → f k ≡ true

module _ (f : ℕ → Bool) (n : ℕ) (mono : (i j : ℕ) → i ≤ j → j < n → f i ≡ true → f j ≡ true) where
  false_below : (h : ℕ) → h < n → f h ≡ false → (k : ℕ) → k < h + 1 → f k ≡ false
  false_below h hn e k lt = elim (Bool-cases (f k)) [
    | inl t ↦ cc (mono k h (omega arith) hn t)
    | inr t ↦ t
  ]

  search_from-IsBoundary :
      (fuel i j : ℕ)
      → j ≤ i + fuel
      → j ≤ n
      → i ≤ j
      → ((k : ℕ) → k < i → f k ≡ false)
      → ((k : ℕ) → j ≤ k → k < n → f k ≡ true)
      → IsBoundary f n (search_from fuel f i j)
  unfolding search_from
  search_from-IsBoundary zero i j enough top le lo hi = record {
    before = lo;
    after = λ k ik kn. hi k (omega arith) kn;
  }
  search_from-IsBoundary (suc fuel) i j enough top le lo hi = elim (Bool-cases (ltb i j)) [
    | inr done ↦
        rw done (record { before = lo; after = λ k ik kn. hi k (ground (arith, lt→ltb i j)) kn })
    | inl go ↦
        let lt : i < j = ltb→lt i j go in
        elim (Bool-cases (f ((i + j) / 2))) [
          | inl t ↦
              rw (go, t)
                (search_from-IsBoundary fuel i ((i + j) / 2) (omega arith) (omega arith)
                  (omega arith) lo (λ k hk kn. mono ((i + j) / 2) k hk kn t))
          | inr t ↦
              rw (go, t)
                (search_from-IsBoundary fuel ((i + j) / 2 + 1) j (omega arith) top (omega arith)
                  (false_below ((i + j) / 2) (omega arith) t) hi)
        ]
  ]

  -- On a test that stays true once it is true, the binary search finds the boundary.
  pub search_index-IsBoundary : IsBoundary f n (search_index n f)
  unfolding search_index
  search_index-IsBoundary =
      search_from-IsBoundary n 0 n (omega arith) (omega arith) (omega arith)
        (λ k h. absurd (omega arith)) (λ k h g. absurd (omega arith))
