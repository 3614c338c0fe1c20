-- ===== src/MemoryStore/Put.antt =====
-- What `Put` of `MemoryStore` stores, reports and returns, on every branch.
use nell_db.Base.{
  ◌≡◌, ◌∙◌, ◌⊎◌, refl, sym, ap, true, false, Option, none, some, Bool-cases, inl, inr,
  if◌then◌else◌,
}
use nell_db.Base.Bytes.{Bytes, eqb}
use nell_db.Base.Map.{lookup, lookup-insert}
use nell_db.Record.{Record}
use nell_db.Resolve.{resolve_conflict, pick}
use nell_db.Resolve.Order.{beats, resolve_conflict-beats, beats_irrefl, beats_asymm}
use nell_db.MemoryStore.{
  MemoryStore, key, with_collection, put_new, put_over, put_at, put, is_incoming,
}

-- The key that `Put` stores a record under.
abbrev pub key_of : Record → Bytes
key_of r = key (with_collection r).collection (with_collection r).id

-- The record that is stored when `r` meets what is there.
unfoldable pub merge : Option Record → Record → Record
merge none r = r
merge (some old) r = pick (resolve_conflict old r) old r

pub merge_cases :
    (old r : Record)
    → (beats r old ≡ true) × (merge (some old) r ≡ r)
      ⊎ (beats r old ≡ false) × (merge (some old) r ≡ old)
unfolding merge
merge_cases old r = elim (Bool-cases (beats r old)) [
  | inl e ↦ inl (e, rw (resolve_conflict-beats old r, e) refl)
  | inr e ↦ inr (e, rw (resolve_conflict-beats old r, e) refl)
]

-- What is stored is beaten neither by the record that was there nor by the one that came.
pub merge-ge_old : (old r : Record) → beats old (merge (some old) r) ≡ false
merge-ge_old old r = elim (merge_cases old r) [
  | inl (e, p) ↦ rw p (beats_asymm r old e)
  | inr (e, p) ↦ rw p (beats_irrefl old)
]

pub merge-ge_new : (o : Option Record) (r : Record) → beats r (merge o r) ≡ false
merge-ge_new none r = unfold merge in beats_irrefl r
merge-ge_new (some old) r = elim (merge_cases old r) [
  | inl (e, p) ↦ rw p (beats_irrefl r)
  | inr (e, p) ↦ rw p e
]

-- What is stored is the record that came or the one that was there.
pub merge_origin : (o : Option Record) (r : Record) → (merge o r ≡ r) ⊎ (o ≡ some (merge o r))
merge_origin none r = unfold merge in inl refl
merge_origin (some old) r = elim (merge_cases old r) [
  | inl (e, p) ↦ inl p
  | inr (e, p) ↦ inr (ap some (sym p))
]

put_at-records :
    (s : MemoryStore) (k j : Bytes) (r : Record) (o : Option Record)
    → lookup j (put_at s k r o).0.records
      ≡ (if eqb k j then some (merge o r) else lookup j s.records)
unfolding put_at put_new put_over merge
put_at-records s k j r none = lookup-insert k j r s.records
put_at-records s k j r (some old) =
    lookup-insert k j (pick (resolve_conflict old r) old r) s.records

pub lookup-put :
    (s : MemoryStore) (r : Record) (j : Bytes)
    → lookup j (put s r).0.records ≡ (
        if eqb (key_of r) j
        then some (merge (lookup (key_of r) s.records) (with_collection r))
        else lookup j s.records)
unfolding put
lookup-put s r j = put_at-records _ (key_of r) j (with_collection r) (lookup (key_of r) s.records)

put_at-current :
    (s : MemoryStore) (k : Bytes) (r : Record) (o : Option Record) → (put_at s k r o).2 ≡ merge o r
unfolding put_at merge
put_at-current s k r none = refl
put_at-current s k r (some old) = refl

put_at-accepted :
    (s : MemoryStore) (k : Bytes) (r : Record) (old : Record)
    → (put_at s k r (some old)).1 ≡ beats r old
unfolding put_at is_incoming
put_at-accepted s k r old = elim (Bool-cases (beats r old)) [
  | inl e ↦ rw (resolve_conflict-beats old r, e) refl
  | inr e ↦ rw (resolve_conflict-beats old r, e) refl
]

-- The record that `Put` returns.
pub put-current :
    (s : MemoryStore) (r : Record)
    → (put s r).2 ≡ merge (lookup (key_of r) s.records) (with_collection r)
unfolding put
put-current s r = put_at-current _ (key_of r) (with_collection r) (lookup (key_of r) s.records)

-- Storing it again changes nothing.
pub merge_again : (o : Option Record) (r : Record) → merge o (merge o r) ≡ merge o r
merge_again none r = unfold merge in refl
merge_again (some old) r = elim (merge_cases old r) [
  | inl (e, p) ↦ ap (merge (some old)) p
  | inr (e, p) ↦ elim (merge_cases old old) [
    | inl (f, q) ↦ ap (merge (some old)) p ∙ q ∙ sym p
    | inr (f, q) ↦ ap (merge (some old)) p ∙ q ∙ sym p
  ]
]

-- `Put` on any store and record, the default collection filled in. Under the record's key the store
-- afterwards holds the record that `Put` returns, which is the incoming one or the one that was
-- there, and which neither of them beats. Every other key holds what it held. With no record there
-- before, `Put` accepts; with one there, it accepts exactly when the incoming record beats it.
pub put_lem :
    (s : MemoryStore) (r : Record)
    → ((j : Bytes)
        → lookup j (put s r).0.records
          ≡ (if eqb (key_of r) j then some (put s r).2 else lookup j s.records))
      × (((put s r).2 ≡ with_collection r) ⊎ (lookup (key_of r) s.records ≡ some (put s r).2))
      × (beats (with_collection r) (put s r).2 ≡ false)
      × ((old : Record) → lookup (key_of r) s.records ≡ some old → beats old (put s r).2 ≡ false)
      × (lookup (key_of r) s.records ≡ none → (put s r).1 ≡ true)
      × ((old : Record)
          → lookup (key_of r) s.records ≡ some old
          → (put s r).1 ≡ beats (with_collection r) old)
put_lem s r = (
  (λ j. rw current (lookup-put s r j)),
  rw current (merge_origin found r'),
  rw current (merge-ge_new found r'),
  (λ old e. rw (current, e) (merge-ge_old old r')),
  (λ e. unfold put in rw e (unfold put_at in refl)),
  (λ old e. unfold put in rw e (put_at-accepted _ (key_of r) r' old)),
)
  where
    r' : Record
    r' = with_collection r

    found : Option Record
    found = lookup (key_of r) s.records

    current : (put s r).2 ≡ merge found r'
    current = put-current s r
