-- ===== src/MemoryStore/Invariant.antt =====
-- What holds of a `MemoryStore` between its methods, and that every method keeps it.
pub mod Write
pub mod LocalWrite
pub mod Reach
use nell_db.Base.{
  ◌≡◌, ◌≢◌, refl, sym, ap, ◌∙◌, true, false, none, some, [], arith, Bool-cases, inl, inr,
  if◌then◌else◌, ◌&&◌, ◌||◌,
}
use nell_db.Base.Bytes.{Bytes, eqb, eqb_iff, eqb→eq, eqb_refl}
use nell_db.Base.Map.{lookup, insert, Distinct, lookup-insert, insert-Distinct}
use nell_db.Base.Sort.{sort}
use nell_db.Hlc.{Hlc, greater_than}
use nell_db.Record.{Record}
use nell_db.Knowledge.{unseen}
use nell_db.MemoryStore.{MemoryStore, key, clock_key_less, clock_keys}
use nell_db.MemoryStore.Keys.{ColonFree, key-injective}
use nell_db.MemoryStore.Index.{indexed}

-- What holds of the record `r` stored under `k`: it stands under its own key, its collection has a
-- name with no colon in it and indexes the key, its stamp is covered by the knowledge vector, and its
-- clock is not ahead of the store's.
pub record Stored (s : MemoryStore) (k : Bytes) (r : Record) : Type 0 where
  pub keyed : k ≡ key r.collection r.id
  pub plain : ColonFree r.collection
  pub named : r.collection ≢ []
  pub in_index : indexed s.col_index r.collection k ≡ true
  pub known : unseen s.kv r.updated_by r.clock ≡ false
  pub behind : greater_than r.clock s.clock ≡ false

pub record IsValid (s : MemoryStore) : Type 0 where
  pub distinct : Distinct s.records
  pub stored : (k : Bytes) (r : Record) → lookup k s.records ≡ some r → Stored s k r
  pub sound :
      (c k : Bytes)
      → indexed s.col_index c k ≡ true
      → (r : Record) × (lookup k s.records ≡ some r) × (r.collection ≡ c)
  pub fresh : s.changes_dirty ≡ false → s.changes_idx ≡ sort clock_key_less (clock_keys s.records)

-- A write of `r` under the key `k` that takes the store from `s` to `s'`.
pub record Wrote (s s' : MemoryStore) (k : Bytes) (r : Record) : Type 0 where
  pub records : s'.records ≡ insert k r s.records
  pub col_index :
      (c j : Bytes)
      → indexed s'.col_index c j ≡ (eqb r.collection c && eqb k j || indexed s.col_index c j)
  pub kv : (n : Bytes) (c : Hlc) → unseen s.kv n c ≡ false → unseen s'.kv n c ≡ false
  pub clock : (c : Hlc) → greater_than c s.clock ≡ false → greater_than c s'.clock ≡ false
  pub dirty : s'.changes_dirty ≡ true
  pub keyed : k ≡ key r.collection r.id
  pub plain : ColonFree r.collection
  pub named : r.collection ≢ []
  pub known : unseen s'.kv r.updated_by r.clock ≡ false
  pub behind : greater_than r.clock s'.clock ≡ false

module _ (s s' : MemoryStore) (k : Bytes) (r : Record) (v : IsValid s) (w : Wrote s s' k r) where
  lookup-write :
      (j : Bytes) → lookup j s'.records ≡ (if eqb k j then some r else lookup j s.records)
  lookup-write j = ap (λ m. lookup j m) w.records ∙ lookup-insert k j r s.records

  Stored-new : Stored s' k r
  Stored-new = record {
    keyed = w.keyed;
    plain = w.plain;
    named = w.named;
    in_index = rw (w.col_index r.collection k, eqb_refl r.collection, eqb_refl k) refl;
    known = w.known;
    behind = w.behind;
  }

  Stored-old : (j : Bytes) (x : Record) → Stored s j x → Stored s' j x
  Stored-old j x h = record {
    keyed = h.keyed;
    plain = h.plain;
    named = h.named;
    in_index = ground (arith, w.col_index x.collection j, h.in_index);
    known = w.kv x.updated_by x.clock h.known;
    behind = w.clock x.clock h.behind;
  }

  Stored-write : (j : Bytes) (x : Record) → lookup j s'.records ≡ some x → Stored s' j x
  Stored-write j x h = elim (Bool-cases (eqb k j)) [
    | inl e ↦
        let same : some r ≡ some x = rw (lookup-write j, e) at h in
        let p : r ≡ x = cc in rw (← p, ← eqb→eq k j e) Stored-new
    | inr e ↦ Stored-old j x (v.stored j x (rw (lookup-write j, e) at h))
  ]

  same_collection : (c : Bytes) → indexed s'.col_index c k ≡ true → r.collection ≡ c
  same_collection c h = elim (Bool-cases (eqb r.collection c)) [
    | inl e ↦ eqb→eq r.collection c e
    | inr e ↦
        let (x, found, named) = v.sound c k (ground (arith, w.col_index c k)) in
        let old = v.stored k x found in
        (key-injective r.collection x.collection r.id x.id w.plain old.plain
          (sym w.keyed ∙ old.keyed)).0
        ∙ named
  ]

  sound-write :
      (c j : Bytes)
      → indexed s'.col_index c j ≡ true
      → (x : Record) × (lookup j s'.records ≡ some x) × (x.collection ≡ c)
  sound-write c j h = elim (Bool-cases (eqb k j)) [
    | inl e ↦ (r, rw (lookup-write j, e) refl, same_collection c (rw (← eqb→eq k j e) at h))
    | inr e ↦
        let (x, found, named) = v.sound c j (ground (arith, w.col_index c j)) in
        (x, rw (lookup-write j, e) found, named)
  ]

  pub Wrote-IsValid : IsValid s'
  Wrote-IsValid = record {
    distinct = rw w.records (insert-Distinct k r s.records v.distinct);
    stored = Stored-write;
    sound = sound-write;
    fresh = λ h. cc (w.dirty);
  }
