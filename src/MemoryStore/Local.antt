-- ===== src/MemoryStore/Local.antt =====
-- `PutLocal` and `Delete` of `MemoryStore`: the writes that the node itself originates.
use nell_db.Base.{◌≡◌, refl, ◌∙◌, true, false, some}
use nell_db.Base.Int.{ℤ}
use nell_db.Base.Bytes.{Bytes, eqb, eqb_refl}
use nell_db.Base.Map.{lookup, lookup-insert}
use nell_db.Hlc.{greater_than, tick}
use nell_db.Hlc.Order.{greater_than_trans_le}
use nell_db.Hlc.Clock.{HasRoom, tick-greater}
use nell_db.Record.{Record}
use nell_db.MemoryStore.{
  MemoryStore, key, with_collection, collection_or_default, store_local, put_local, delete, get,
  found_or_new,
}
use nell_db.MemoryStore.Put.{key_of}
use nell_db.MemoryStore.Invariant.{IsValid}

-- A clock ticked past the store's is greater than every stored one.
tick_beats :
    (now : ℤ) (s : MemoryStore) (k : Bytes) (x : Record)
    → IsValid s
    → HasRoom s.clock
    → lookup k s.records ≡ some x
    → greater_than (tick now s.clock) x.clock ≡ true
tick_beats now s k x v room e =
    greater_than_trans_le (tick now s.clock) s.clock x.clock (tick-greater now s.clock room)
      (v.stored k x e).behind

-- After `PutLocal` on a valid store, `Get` of the record's collection and id returns the record that
-- `PutLocal` returned, stamped with this node and with a clock greater than every one stored before;
-- every other key holds what it held. The counter of the store's clock is not at its maximum.
pub put_local_lem :
    (now : ℤ) (s : MemoryStore) (r : Record)
    → IsValid s
    → HasRoom s.clock
    → (get (put_local now s r).0 r.collection r.id ≡ some (put_local now s r).1)
      × ((put_local now s r).1.updated_by ≡ s.node_id)
      × ((k : Bytes) (x : Record)
          → lookup k s.records ≡ some x
          → greater_than (put_local now s r).1.clock x.clock ≡ true)
      × ((j : Bytes)
          → eqb (key_of r) j ≡ false
          → lookup j (put_local now s r).0.records ≡ lookup j s.records)
unfolding put_local store_local get with_collection
put_local_lem now s r v room = (
  lookup-insert (key_of r) (key_of r) stamped s.records ∙ rw (eqb_refl (key_of r)) refl,
  refl,
  (λ k x e. tick_beats now s k x v room e),
  (λ j e. lookup-insert (key_of r) j stamped s.records ∙ rw e refl),
)
  where
    stamped : Record
    stamped = (put_local now s r).1

-- After `Delete` on a valid store, `Get` of the collection and id returns a tombstone: the record that
-- `Delete` returned, marked as deleted, stamped with this node and with a clock greater than every one
-- stored before. Its type and payload are those that were stored. Every other key holds what it held.
-- The counter of the store's clock is not at its maximum.
pub delete_lem :
    (now : ℤ) (s : MemoryStore) (collection id : Bytes)
    → IsValid s
    → HasRoom s.clock
    → (get (delete now s collection id).0 collection id ≡ some (delete now s collection id).1)
      × ((delete now s collection id).1.deleted ≡ true)
      × ((delete now s collection id).1.updated_by ≡ s.node_id)
      × ((old : Record)
          → get s collection id ≡ some old
          → ((delete now s collection id).1.type ≡ old.type)
            × ((delete now s collection id).1.payload ≡ old.payload))
      × ((k : Bytes) (x : Record)
          → lookup k s.records ≡ some x
          → greater_than (delete now s collection id).1.clock x.clock ≡ true)
      × ((j : Bytes)
          → eqb (key (collection_or_default collection) id) j ≡ false
          → lookup j (delete now s collection id).0.records ≡ lookup j s.records)
unfolding delete store_local get
delete_lem now s collection id v room = (
  lookup-insert k k tombstone s.records ∙ rw (eqb_refl k) refl,
  refl,
  refl,
  (λ old e. unfold found_or_new in rw e (refl, refl)),
  (λ j x e. tick_beats now s j x v room e),
  (λ j e. lookup-insert k j tombstone s.records ∙ rw e refl),
)
  where
    k : Bytes
    k = key (collection_or_default collection) id

    tombstone : Record
    tombstone = (delete now s collection id).1
