-- ===== src/MemoryStore/Invariant/Write.antt =====
-- Every method of `MemoryStore` that writes keeps the invariant.
use nell_db.Base.{◌≡◌, ◌≢◌, refl, sym, subst, true, false, Option, none, some, [], ◌∷◌, arith}
use nell_db.Base.Int.{ℤ}
use nell_db.Base.Bytes.{Bytes, eqb_iff}
use nell_db.Base.Map.{lookup}
use nell_db.Hlc
use nell_db.Hlc.{Hlc, greater_than, tick}
use nell_db.Hlc.Order.{greater_than_asymm, le_trans_hlc}
use nell_db.Hlc.Clock.{HasRoom, update-greater, update-ge}
use nell_db.Record.{Record}
use nell_db.Knowledge.Laws.{unseen-update, unseen-update_self}
use nell_db.Resolve.{Side, local, incoming, pick}
use nell_db.MemoryStore.{
  MemoryStore, key, new_memory_store, with_collection, collection_or_default, put_new, put_over,
  put_at, put,
}
use nell_db.MemoryStore.Keys.{ColonFree, key-injective, collection_or_default-ColonFree}
use nell_db.MemoryStore.Index.{indexed, in_set, indexed-index_key}
use nell_db.MemoryStore.Invariant.{IsValid, Stored, Wrote, Wrote-IsValid}

pub collection_or_default_named : (c : Bytes) → collection_or_default c ≢ []
unfolding collection_or_default
collection_or_default_named [] e = cc
collection_or_default_named (x ∷ c) e = cc

-- A new store is empty.
pub new_memory_store-IsValid : (n : Bytes) (now : ℤ) → IsValid (new_memory_store n now)
unfolding new_memory_store lookup indexed in_set
new_memory_store-IsValid n now = record {
  distinct = tt;
  stored = λ k r h. cc;
  sound = λ c k h. cc;
  fresh = λ h. cc;
}

module _ (s : MemoryStore) (r₀ : Record) (plain : ColonFree r₀.collection)
    (room : HasRoom r₀.clock) where
  received : Record
  received = with_collection r₀

  merged : MemoryStore
  unfolding received with_collection
  merged = record s { clock = Hlc.update s.clock received.clock }

  behind_merged : (c : Hlc) → greater_than c s.clock ≡ false → greater_than c merged.clock ≡ false
  unfolding merged
  behind_merged c h = le_trans_hlc c s.clock merged.clock h (update-ge s.clock r₀.clock room)

  put_new-Wrote :
      Wrote s
        (put_new merged (key received.collection received.id) received)
        (key received.collection received.id)
        received
  unfolding put_new merged received with_collection
  put_new-Wrote = record {
    records = refl;
    col_index = λ c j. indexed-index_key _ j _ c s.col_index;
    kv = λ n c. unseen-update s.kv r₀.updated_by n r₀.clock c;
    clock = behind_merged;
    dirty = refl;
    keyed = refl;
    plain = collection_or_default-ColonFree r₀.collection plain;
    named = collection_or_default_named r₀.collection;
    known = unseen-update_self s.kv r₀.updated_by r₀.clock;
    behind = greater_than_asymm merged.clock r₀.clock (update-greater s.clock r₀.clock room);
  }

  put_over-Wrote :
      (k : Bytes) (w : Record)
      → k ≡ key w.collection w.id
      → ColonFree w.collection
      → w.collection ≢ []
      → indexed s.col_index w.collection k ≡ true
      → greater_than w.clock merged.clock ≡ false
      → Wrote s (put_over merged k w) k w
  unfolding put_over merged
  put_over-Wrote k w keyed plain' named old behind = record {
    records = refl;
    col_index = λ c j. ground (arith, eqb_iff w.collection c, eqb_iff k j);
    kv = λ n c. unseen-update s.kv w.updated_by n w.clock c;
    clock = behind_merged;
    dirty = refl;
    keyed = keyed;
    plain = plain';
    named = named;
    known = unseen-update_self s.kv w.updated_by w.clock;
    behind = behind;
  }

  same_collection :
      (old : Record)
      → Stored s (key received.collection received.id) old
      → old.collection ≡ received.collection
  unfolding received with_collection
  same_collection old st =
      (key-injective old.collection received.collection old.id received.id st.plain
        (collection_or_default-ColonFree r₀.collection plain) (sym st.keyed)).0

  put_over_side-Wrote :
      (old : Record) (side : Side)
      → Stored s (key received.collection received.id) old
      → Wrote s
          (put_over merged (key received.collection received.id) (pick side old received))
          (key received.collection received.id)
          (pick side old received)
  put_over_side-Wrote old local st =
      put_over-Wrote _ old st.keyed st.plain st.named st.in_index
        (behind_merged old.clock st.behind)
  put_over_side-Wrote old incoming st =
      put_over-Wrote _ received refl
        (unfold received with_collection in collection_or_default-ColonFree r₀.collection plain)
        (unfold received with_collection in collection_or_default_named r₀.collection)
        (subst (λ c. indexed s.col_index c (key received.collection received.id) ≡ true)
          (same_collection old st) st.in_index)
        (unfold received with_collection merged in
          greater_than_asymm merged.clock r₀.clock (update-greater s.clock r₀.clock room))

  put_at-IsValid :
      (o : Option Record)
      → lookup (key received.collection received.id) s.records ≡ o
      → IsValid s
      → IsValid (put_at merged (key received.collection received.id) received o).0
  unfolding put_at
  put_at-IsValid none e v = Wrote-IsValid s _ _ _ v put_new-Wrote
  put_at-IsValid (some old) e v =
      Wrote-IsValid s _ _ _ v (put_over_side-Wrote old _ (v.stored _ old e))

  -- `Put` keeps the invariant, on a key that is new and on one that has a record, for a record whose
  -- collection has no colon in its name and whose clock's counter is not at its maximum.
  pub put-IsValid : IsValid s → IsValid (put s r₀).0
  unfolding put merged received with_collection
  put-IsValid v = put_at-IsValid _ refl v
