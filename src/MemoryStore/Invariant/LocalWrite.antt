-- ===== src/MemoryStore/Invariant/LocalWrite.antt =====
-- The methods of `MemoryStore` that originate records, `PutLocal` and `Delete`, and the query that
-- rebuilds the changes index keep the invariant.
use nell_db.Base.{
  ◌≡◌, ◌≢◌, refl, sym, ◌∙◌, Bool, true, false, Option, none, some, [], arith, if◌then◌else◌, ◌&&◌,
  ◌||◌,
}
use nell_db.Base.Int.{ℤ}
use nell_db.Base.Bytes.{Bytes, eqb, eqb_iff}
use nell_db.Base.Map.{lookup}
use nell_db.Hlc.{Hlc, tick}
use nell_db.Hlc.Order.{greater_than_irrefl, greater_than_asymm, le_trans_hlc}
use nell_db.Hlc.Clock.{HasRoom, tick-greater}
use nell_db.Record.{Record}
use nell_db.Knowledge.Laws.{unseen-update, unseen-update_self}
use nell_db.MemoryStore.{
  MemoryStore, key, index_if_new, with_collection, collection_or_default, store_local, put_local,
  found_or_new, delete, rebuild_changes_index, ensure_index, get_changes_since,
}
use nell_db.MemoryStore.Keys.{ColonFree, key-injective, collection_or_default-ColonFree}
use nell_db.MemoryStore.Index.{indexed, indexed-index_key}
use nell_db.MemoryStore.Invariant.{IsValid, Wrote-IsValid}
use nell_db.MemoryStore.Invariant.Write.{collection_or_default_named}

abbrev ticked : ℤ → MemoryStore → MemoryStore
ticked now s = record s { clock = tick now s.clock }

module _ (now : ℤ) (s : MemoryStore) (v : IsValid s) (room : HasRoom s.clock) (k : Bytes)
    (r : Record) (keyed : k ≡ key r.collection r.id) (plain : ColonFree r.collection)
    (named : r.collection ≢ []) (clock : r.clock ≡ tick now s.clock)
    (author : r.updated_by ≡ s.node_id) where
  index_if_new_lem :
      (o : Option Record)
      → lookup k s.records ≡ o
      → (c j : Bytes)
      → indexed (index_if_new o k r.collection s.col_index) c j
        ≡ (eqb r.collection c && eqb k j || indexed s.col_index c j)
  unfolding index_if_new
  index_if_new_lem none e c j = indexed-index_key k j r.collection c s.col_index
  index_if_new_lem (some old) e c j =
      let st = v.stored k old e in
      let same =
        (key-injective old.collection r.collection old.id r.id st.plain plain
          (sym st.keyed ∙ keyed)).0 in
      let there : indexed s.col_index r.collection k ≡ true = rw (← same) st.in_index in
      ground (arith, eqb_iff r.collection c, eqb_iff k j)

  store_local-IsValid : IsValid (store_local (ticked now s) k r)
  unfolding store_local
  store_local-IsValid = Wrote-IsValid s _ k r v (record {
    records = refl;
    col_index = index_if_new_lem (lookup k s.records) refl;
    kv = λ n c. unseen-update s.kv s.node_id n r.clock c;
    clock = λ c h.
        le_trans_hlc c s.clock (tick now s.clock) h
          (greater_than_asymm (tick now s.clock) s.clock (tick-greater now s.clock room));
    dirty = refl;
    keyed = keyed;
    plain = plain;
    named = named;
    known = rw author (unseen-update_self s.kv s.node_id r.clock);
    behind = rw clock (greater_than_irrefl (tick now s.clock));
  })

-- `PutLocal` keeps the invariant, for a collection with no colon in its name and while the counter of
-- the store's clock is not at its maximum.
pub put_local-IsValid :
    (now : ℤ) (s : MemoryStore) (r : Record)
    → IsValid s
    → HasRoom s.clock
    → ColonFree r.collection
    → IsValid (put_local now s r).0
unfolding put_local with_collection
put_local-IsValid now s r v room plain =
    store_local-IsValid now s v room _ _ refl (collection_or_default-ColonFree r.collection plain)
      (collection_or_default_named r.collection) refl refl

-- `Delete` keeps the invariant under the same conditions, whether or not the record is there.
pub delete-IsValid :
    (now : ℤ) (s : MemoryStore) (collection id : Bytes)
    → IsValid s
    → HasRoom s.clock
    → ColonFree collection
    → IsValid (delete now s collection id).0
unfolding delete
delete-IsValid now s collection id v room plain = go _ refl
  where
    c : Bytes
    c = collection_or_default collection

    go :
        (o : Option Record)
        → lookup (key c id) s.records ≡ o
        → IsValid (
            store_local (ticked now s) (key c id) (record (found_or_new o c id) {
              clock = tick now s.clock;
              updated_by = s.node_id;
              deleted = true;
            }))
    go none e =
        unfold found_or_new in
        store_local-IsValid now s v room _ _ refl (collection_or_default-ColonFree collection plain)
          (collection_or_default_named collection) refl refl
    go (some old) e =
        unfold found_or_new in
        let st = v.stored _ old e in
        store_local-IsValid now s v room _ _ st.keyed st.plain st.named refl refl

-- `GetChangesSince` keeps the invariant: the index that it leaves is the one that a rebuild gives.
pub get_changes_since-IsValid :
    (s : MemoryStore) (since : Hlc) → IsValid s → IsValid (get_changes_since s since).0
unfolding get_changes_since ensure_index
get_changes_since-IsValid s since v = go s.changes_dirty
  where
    rebuilt : IsValid (rebuild_changes_index s)
    rebuilt =
        unfold rebuild_changes_index in
        record {
          distinct = v.distinct;
          stored = λ k r h.
              let st = v.stored k r h in
              record {
                keyed = st.keyed;
                plain = st.plain;
                named = st.named;
                in_index = st.in_index;
                known = st.known;
                behind = st.behind;
              };
          sound = v.sound;
          fresh = λ h. refl;
        }

    go : (b : Bool) → IsValid (if b then rebuild_changes_index s else s)
    go true = rebuilt
    go false = v
