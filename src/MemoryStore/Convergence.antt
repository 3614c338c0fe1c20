-- ===== src/MemoryStore/Convergence.antt =====
-- Replication by `Put`: what a store holds after it has received a list of records.
use nell_db.Base.{
  ◌≡◌, refl, sym, ap, ◌∙◌, none, some, List, [], ◌∷◌, Bool-cases, inl, inr, if◌then◌else◌,
}
use nell_db.Base.Int.{ℤ}
use nell_db.Base.Bytes.{Bytes, eqb, eqb→eq, eqb_refl}
use nell_db.Base.Map.{lookup}
use nell_db.Record.{Record}
use nell_db.MemoryStore.{MemoryStore, new_memory_store, with_collection, put}
use nell_db.MemoryStore.Winner.{winner_at, winner_at_same, SameRecords, UniqueStamps, merge_tie}
use nell_db.MemoryStore.Put.{key_of, merge, lookup-put}

-- The loop `for _, rec := range changes { store.Put(rec) }`.
unfoldable pub put_all : MemoryStore → List Record → MemoryStore
put_all s [] = s
put_all s (r ∷ rs) = put_all (put s r).0 rs

pub lookup-put_all :
    (s : MemoryStore) (rs : List Record) (k : Bytes)
    → lookup k (put_all s rs).records ≡ winner_at k (lookup k s.records) rs
unfolding put_all winner_at
lookup-put_all s [] k = refl
lookup-put_all s (r ∷ rs) k = lookup-put_all (put s r).0 rs k ∙ ap (λ o. winner_at k o rs) (one k)
  where
    one :
        (j : Bytes)
        → lookup j (put s r).0.records ≡ (
            if eqb (key_of r) j
            then some (merge (lookup j s.records) (with_collection r))
            else lookup j s.records)
    one j = elim (Bool-cases (eqb (key_of r) j)) [
      | inl e ↦ rw (lookup-put s r j, e, eqb→eq (key_of r) j e) refl
      | inr e ↦ rw (lookup-put s r j, e) refl
    ]

-- Two new stores, on any nodes and at any times, that receive by `Put` the same records, each in its
-- own order and as often as may be, hold the same record under every key, as long as two records with
-- one key, one clock and one writing node are the same.
pub put_all_converges :
    (n m : Bytes) (now now' : ℤ) (xs ys : List Record) (k : Bytes)
    → SameRecords xs ys
    → UniqueStamps xs
    → lookup k (put_all (new_memory_store n now) xs).records
      ≡ lookup k (put_all (new_memory_store m now') ys).records
unfolding new_memory_store lookup
put_all_converges n m now now' xs ys k same unique =
    lookup-put_all (new_memory_store n now) xs k
    ∙ winner_at_same xs ys k same unique
    ∙ sym (lookup-put_all (new_memory_store m now') ys k)

first_stays :
    (n : Bytes) (now : ℤ) (x y : Record)
    → key_of x ≡ key_of y
    → x.clock ≡ y.clock
    → x.updated_by ≡ y.updated_by
    → lookup (key_of x) (put_all (new_memory_store n now) (x ∷ y ∷ [])).records
      ≡ some (with_collection x)
unfolding new_memory_store lookup
first_stays n now x y k c u =
    lookup-put_all (new_memory_store n now) (x ∷ y ∷ []) (key_of x)
    ∙ unfold winner_at in
      rw (eqb_refl (key_of x), ← k, eqb_refl (key_of x), first)
        (ap some (
          merge_tie (with_collection x) (with_collection y) (unfold with_collection in c)
            (unfold with_collection in u)))
  where
    first : merge none (with_collection x) ≡ with_collection x
    first = unfold merge in refl

-- Without that, the order decides: two records with one key and one stamp, however they differ, leave
-- each of two new stores with the record that it received first.
pub put_all_diverges :
    (n m : Bytes) (now now' : ℤ) (x y : Record)
    → key_of x ≡ key_of y
    → x.clock ≡ y.clock
    → x.updated_by ≡ y.updated_by
    → (lookup (key_of x) (put_all (new_memory_store n now) (x ∷ y ∷ [])).records
        ≡ some (with_collection x))
      × (lookup (key_of y) (put_all (new_memory_store m now') (y ∷ x ∷ [])).records
          ≡ some (with_collection y))
put_all_diverges n m now now' x y k c u =
    (first_stays n now x y k c u, first_stays m now' y x (sym k) (sym c) (sym u))
