-- ===== src/MemoryStore/Changes/Search.antt =====
-- The binary search of `GetChangesSince` over the sorted index.
use nell_db.Base.{
  ℕ, zero, suc, ◌≤◌, ◌<◌, ◌≡◌, refl, Bool, true, false, Option, none, some, List, [], ◌∷◌, arith,
  All, length, get_elem?, get_elem?_of_lt, drop, filter,
}
use nell_db.Base.Int.{ltb_ℤ, eqb_ℤ}
use nell_db.Base.Filter.{holds_at, drop-filter}
use nell_db.Base.Sort.{Sorted, search_index, search_index-IsBoundary}
use nell_db.Hlc.{Hlc, greater_than}
use nell_db.Hlc.Order.{le_greater_than_trans, greater_than_irrefl}
use nell_db.MemoryStore.{ClockKey, clock_key_less, entry_after, after_since}
use nell_db.MemoryStore.Changes.Order.{less→le}

-- The test of one entry.
abbrev pub is_after : Hlc → ClockKey → Bool
is_after since ck = greater_than ck.clock since

entry_after-is_after :
    (since : Hlc) (o : Option ClockKey) → entry_after since o ≡ holds_at (is_after since) o
unfolding entry_after greater_than ltb_ℤ eqb_ℤ
entry_after-is_after since none = refl
entry_after-is_after since (some ck) = ground arith

Sorted-get :
    (xs : List ClockKey) (i j : ℕ) (a b : ClockKey)
    → Sorted clock_key_less xs
    → i ≤ j
    → get_elem? xs i ≡ some a
    → get_elem? xs j ≡ some b
    → greater_than a.clock b.clock ≡ false
Sorted-get [] i j a b s le p q = cc
Sorted-get (x ∷ xs) zero zero a b s le p q =
    let e : a ≡ b = cc in rw e (greater_than_irrefl b.clock)
Sorted-get (x ∷ xs) zero (suc j) a b s le p q =
    let e : x ≡ a = cc in rw (← e) (less→le x b (All_get j xs s.0 q))
  where
    All_get :
        (k : ℕ) (ys : List ClockKey)
        → All (λ y. clock_key_less y x ≡ false) ys
        → get_elem? ys k ≡ some b
        → clock_key_less b x ≡ false
    All_get k [] h g = cc
    All_get zero (y ∷ ys) h g = let e : y ≡ b = cc in rw (← e) h.0
    All_get (suc k) (y ∷ ys) h g = All_get k ys h.1 g
Sorted-get (x ∷ xs) (suc i) zero a b s le p q = absurd (omega arith)
Sorted-get (x ∷ xs) (suc i) (suc j) a b s le p q = Sorted-get xs i j a b s.1 (omega arith) p q

is_after_mono :
    (since : Hlc) (xs : List ClockKey)
    → Sorted clock_key_less xs
    → (i j : ℕ) → i ≤ j
    → j < length xs
    → after_since since xs i ≡ true
    → after_since since xs j ≡ true
unfolding after_since
is_after_mono since xs s i j le lt h =
    let (a, p) = get_elem?_of_lt xs i (omega arith) in
    let (b, q) = get_elem?_of_lt xs j lt in
    let after_a : greater_than a.clock since ≡ true =
      rw (p, entry_after-is_after since (some a)) at h in
    rw (q, entry_after-is_after since (some b))
      (le_greater_than_trans b.clock a.clock since (Sorted-get xs i j a b s le p q) after_a)

-- The binary search drops exactly the entries that are not after `since`.
pub drop-search_index :
    (since : Hlc) (xs : List ClockKey)
    → Sorted clock_key_less xs
    → drop (search_index (length xs) (after_since since xs)) xs ≡ filter (is_after since) xs
unfolding after_since
drop-search_index since xs s =
    let b = search_index-IsBoundary (after_since since xs) (length xs) (is_after_mono since xs s) in
    drop-filter (is_after since) _ xs
      (λ k lt _. rw (← entry_after-is_after since (get_elem? xs k)) (b.before k lt))
      (λ k le lt. rw (← entry_after-is_after since (get_elem? xs k)) (b.after k le lt))
