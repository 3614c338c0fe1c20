-- ===== src/MemoryStore/Listing.antt =====
-- `List` and `ListAll` of `MemoryStore`, which go by the collection index.
use nell_db.Base.{◌≡◌, refl, sym, ap, ◌∙◌, false, some, [], ◌∷◌, Has, inl, inr, Bool-cases}
use nell_db.Base.Bytes.{Bytes}
use nell_db.Base.Map.{Map, lookup}
use nell_db.Record.{Record}
use nell_db.MemoryStore.{
  MemoryStore, KeySet, set_or_new, collection_or_default, record_at, record_or_zero, live_records,
  all_records, list, list_all,
}
use nell_db.MemoryStore.Index.{indexed, Has-in_set, in_set-Has, in_set-set_or_new}
use nell_db.MemoryStore.Invariant.{IsValid}

record_at-some : (m : Map Record) (k : Bytes) (r : Record) → lookup k m ≡ some r → record_at m k ≡ r
unfolding record_at record_or_zero
record_at-some m k r e = rw e refl

Has-all_records :
    (m : Map Record) (set : KeySet) (k : Bytes) (r : Record)
    → Has (k, tt) set
    → record_at m k ≡ r
    → Has r (all_records m set)
unfolding all_records
Has-all_records m [] k r h e = absurd h
Has-all_records m ((j, u) ∷ set) k r (inl p) e =
    inl (ap (λ (x : Bytes × Unit {0}). record_at m x.0) p ∙ e)
Has-all_records m ((j, u) ∷ set) k r (inr h) e = inr (Has-all_records m set k r h e)

all_records-Has :
    (m : Map Record) (set : KeySet) (r : Record)
    → Has r (all_records m set)
    → (k : Bytes) × Has (k, tt) set × (record_at m k ≡ r)
unfolding all_records
all_records-Has m [] r h = absurd h
all_records-Has m ((j, u) ∷ set) r (inl e) = (j, inl refl, e)
all_records-Has m ((j, u) ∷ set) r (inr h) =
    let (k, i, e) = all_records-Has m set r h in (k, inr i, e)

-- `List` is `ListAll` without the tombstones.
Has-live_records :
    (m : Map Record) (set : KeySet) (r : Record)
    → Has r (all_records m set)
    → r.deleted ≡ false
    → Has r (live_records m set)
unfolding all_records live_records
Has-live_records m [] r h d = absurd h
Has-live_records m ((j, u) ∷ set) r (inl e) d = rw (e, d) (inl refl)
Has-live_records m ((j, u) ∷ set) r (inr h) d = elim (Bool-cases (record_at m j).deleted) [
  | inl t ↦ rw t (Has-live_records m set r h d)
  | inr t ↦ rw t (inr (Has-live_records m set r h d))
]

live_records-Has :
    (m : Map Record) (set : KeySet) (r : Record)
    → Has r (live_records m set)
    → Has r (all_records m set) × (r.deleted ≡ false)
unfolding all_records live_records record_at
live_records-Has m [] r h = absurd h
live_records-Has m ((j, u) ∷ set) r h = elim (Bool-cases (record_at m j).deleted) [
  | inl t ↦ let (i, d) = live_records-Has m set r (rw t at h) in (inr i, d)
  | inr t ↦ elim (rw t at h) [
    | inl e ↦ (inl e, rw (← e) t)
    | inr g ↦ let (i, d) = live_records-Has m set r g in (inr i, d)
  ]
]

-- On a valid store `ListAll` returns exactly the records that are stored with the collection, a
-- missing name standing for the default one, tombstones included.
pub list_all_exact :
    (s : MemoryStore) (collection : Bytes) (r : Record)
    → IsValid s
    → (Has r (list_all s collection)
        → (k : Bytes) × (lookup k s.records ≡ some r)
          × (r.collection ≡ collection_or_default collection))
      × ((k : Bytes)
          → lookup k s.records ≡ some r
          → r.collection ≡ collection_or_default collection
          → Has r (list_all s collection))
unfolding list_all indexed
list_all_exact s collection r v = (sound, complete)
  where
    c : Bytes
    c = collection_or_default collection

    set : KeySet
    set = set_or_new (lookup c s.col_index)

    sound :
        Has r (all_records s.records set)
        → (k : Bytes) × (lookup k s.records ≡ some r) × (r.collection ≡ c)
    sound h =
        let (k, i, e) = all_records-Has s.records set r h in
        let (x, found, named) =
          v.sound c k (rw (in_set-set_or_new (lookup c s.col_index) k) at (in_set-Has set k i)) in
        let same : x ≡ r = sym (record_at-some s.records k x found) ∙ e in
        (k, found ∙ ap some same, ap (λ (y : Record). y.collection) (sym same) ∙ named)

    complete :
        (k : Bytes)
        → lookup k s.records ≡ some r
        → r.collection ≡ c
        → Has r (all_records s.records set)
    complete k e p =
        Has-all_records s.records set k r
          (Has-in_set set k
            (in_set-set_or_new (lookup c s.col_index) k ∙ (rw p at (v.stored k r e).in_index)))
          (record_at-some s.records k r e)

-- On a valid store `List` returns exactly the records that are stored with the collection, a missing
-- name standing for the default one, and that are not tombstones.
pub list_exact :
    (s : MemoryStore) (collection : Bytes) (r : Record)
    → IsValid s
    → (Has r (list s collection)
        → (k : Bytes) × (lookup k s.records ≡ some r)
          × (r.collection ≡ collection_or_default collection)
          × (r.deleted ≡ false))
      × ((k : Bytes)
          → lookup k s.records ≡ some r
          → r.collection ≡ collection_or_default collection
          → r.deleted ≡ false
          → Has r (list s collection))
unfolding list list_all
list_exact s collection r v =
    let (sound, complete) = list_all_exact s collection r v in
    (
      (λ h.
          let (i, d) = live_records-Has s.records _ r h in let (k, e, p) = sound i in (k, e, p, d)),
      (λ k e p d. Has-live_records s.records _ r (complete k e p) d),
    )
