-- ===== src/DocDb/Removal.antt =====
-- What `Remove` of sdk/docdb.go leaves: a tombstone, which `Get` does not find.
use nell_db.Base.{
  ℕ, suc, ◌+◌, ◌≡◌, ◌∙◌, refl, sym, ap, Bool, true, false, some, [], ◌∷◌, Bool-cases, inl, inr,
  arith,
}
use nell_db.Base.Int.{ℤ, ltb_ℤ}
use nell_db.Base.Bytes.{Bytes, eqb, eqb_refl}
use nell_db.Base.Map.{lookup, lookup-insert}
use nell_db.Base.Result.{Result, ok, err}
use nell_db.Hlc.{Hlc, new_hlc, update, inc_int32}
use nell_db.Hlc.Clock.{HasRoom}
use nell_db.Record.{Record}
use nell_db.MemoryStore.{collection_or_default}
use nell_db.MemoryStore.Put.{merge}
use nell_db.Doc.{Library, is_empty, gen_rev}
use nell_db.DocDb.Engine.{Store, StoreError, not_found, failed, found, IsLawful}
use nell_db.DocDb.{
  DocDb, doc_not_found, base_rev, next_clock, put_in, get, got, stamp, meta_vector_id,
}
use nell_db.DocDb.Steps.{revs-written}
use nell_db.DocDb.Puts.{get-written, merge_stamped}
use nell_db.DocDb.Deletion.{
  Target, target_id, want_rev, is_another, tombstone_doc, stale_at, missing_record, finish_remove,
  remove_record, remove_found, remove,
}

HasRoom-new_hlc : (first : ℤ) → HasRoom (new_hlc first)
unfolding new_hlc
HasRoom-new_hlc first = record { room = λ e. absurd (ground arith) }

HasRoom-update : (second first : ℤ) → HasRoom (update (new_hlc second) (new_hlc first))
unfolding new_hlc update inc_int32
HasRoom-update second first = record {
  room = λ e. elim (Bool-cases (ltb_ℤ second first)) [
    | inl t ↦ absurd (ground arith)
    | inr t ↦ absurd (ground arith)
  ];
}

merge-found :
    (o : Result StoreError Record) (rec new : Record)
    → ((old : Record) → found o ≡ some old → old.clock ≡ rec.clock)
    → (first second : ℤ) → new.clock ≡ stamp first second (rec.clock ∷ [])
    → HasRoom rec.clock
    → HasRoom (update (new_hlc first) rec.clock)
    → merge (found o) new ≡ new
merge-found (err e) rec new same first second is_stamp room room' = unfold merge in refl
merge-found (ok old) rec new same first second is_stamp room room' =
    let c = same old refl in
    merge_stamped first second old new (rw c is_stamp) (rw c room) (rw c room')

module _ {S : Type 0} (ops : Store S) (lib : Library) (now : ℕ → ℤ) (lawful : IsLawful ops) where
  -- A tombstone under the id, and the revision in the cache.
  abbrev pub Removed : DocDb S → Bytes → Bytes → Type 0
  Removed d id rev =
      (get ops lib now false id d ≡ err doc_not_found) × (lookup id d.revs ≡ some rev)

  get_deleted :
      (d : DocDb S) (id col : Bytes) (rec : Record)
      → d.collection ≡ col
      → ops.get d.store col id ≡ ok rec
      → rec.deleted ≡ true
      → get ops lib now false id d ≡ err doc_not_found
  unfolding get got
  get_deleted d id col rec c stored gone = rw (c, stored, gone) refl

  finish_remove-Removed :
      (d : DocDb S) (id base : Bytes) (clk : Hlc) (rec : Record)
      (res : Result StoreError (Bool × Record)) (rev : Bytes)
      → collection_or_default d.collection ≡ d.collection
      → eqb meta_vector_id id ≡ false
      → ((r : Bool × Record) → res ≡ ok r → ops.get d.store d.collection id ≡ ok rec)
      → rec.deleted ≡ true
      → (finish_remove ops lib now d id base clk res).1 ≡ ok rev
      → Removed (finish_remove ops lib now d id base clk res).0 id rev × (rev ≡ gen_rev lib base [])
  unfolding finish_remove
  finish_remove-Removed d id base clk rec (err e) rev named differ stored gone done = absurd (cc)
  finish_remove-Removed d id base clk rec (ok r) rev named differ stored gone done =
      let new = gen_rev lib base [] in
      let is_rev : rev ≡ new = cc in
      let doc = tombstone_doc id new in
      let (cache, col) = revs-written ops lib now d id new clk true doc in
      (
        (
          get_deleted _ id d.collection rec col
              (get-written ops lib now lawful d id new clk true doc id named differ ∙ stored r refl)
              gone,
          ap (lookup id) cache
              ∙ lookup-insert id id new d.revs
              ∙ rw (eqb_refl id) (ap some (sym is_rev)),
        ),
        is_rev,
      )

  remove_record-Removed :
      (d : DocDb S) (id base : Bytes) (rec : Record) (o : Result StoreError Record) (rev : Bytes)
      → collection_or_default d.collection ≡ d.collection
      → eqb meta_vector_id id ≡ false
      → rec.collection ≡ d.collection
      → rec.id ≡ id
      → ops.get d.store d.collection id ≡ o
      → ((old : Record) → found o ≡ some old → old.clock ≡ rec.clock)
      → HasRoom rec.clock
      → HasRoom (update (new_hlc (now d.reads)) rec.clock)
      → (remove_record ops lib now d id base rec).1 ≡ ok rev
      → Removed (remove_record ops lib now d id base rec).0 id rev × (rev ≡ gen_rev lib base [])
  unfolding remove_record next_clock put_in
  remove_record-Removed d id base rec o rev named differ col is_id at_id same room room' done =
      let clk = stamp (now d.reads) (now (d.reads + 1)) (rec.clock ∷ []) in
      let new = record rec { deleted = true; updated_by = d.node_id; clock = clk } in
      let same_at : (old : Record)
          → found (ops.get d.store rec.collection rec.id) ≡ some old
          → old.clock ≡ rec.clock =
        λ old f. same old (ap found (sym at_id) ∙ rw (← col, ← is_id) f) in
      finish_remove-Removed _ id base clk new _ rev named differ
        (λ r e.
          rw (← col, ← is_id)
            (lawful.stored d.store new r (rw col named) e
              ∙ ap ok (
                  merge-found _ rec new same_at (now d.reads) (now (d.reads + 1)) refl room room')))
        refl done

  -- What is stored under an id carries its names, and its clock has room for an update and a tick.
  abbrev pub Filed : DocDb S → Bytes → Type 0
  Filed d id =
      (old : Record)
      → ops.get d.store d.collection id ≡ ok old
      → (old.collection ≡ d.collection)
        × (old.id ≡ id)
        × HasRoom old.clock
        × HasRoom (update (new_hlc (now d.reads)) old.clock)

  remove_found-Removed :
      (d : DocDb S) (id base : Bytes) (o : Result StoreError Record) (rev : Bytes)
      → collection_or_default d.collection ≡ d.collection
      → eqb meta_vector_id id ≡ false
      → Filed d id
      → ops.get d.store d.collection id ≡ o
      → (remove_found ops lib now d id base o).1 ≡ ok rev
      → Removed (remove_found ops lib now d id base o).0 id rev × (rev ≡ gen_rev lib base [])
  unfolding remove_found
  remove_found-Removed d id base (ok rec) rev named differ filed at_id done =
      let (col, is_id, room, room') = filed rec at_id in
      remove_record-Removed d id base rec (ok rec) rev named differ col is_id at_id (λ old f. cc)
        room room' done
  remove_found-Removed d id base (err (failed e)) rev named differ filed at_id done = absurd (cc)
  remove_found-Removed d id base (err not_found) rev named differ filed at_id done =
      let fresh = new_hlc (now d.reads) in
      let d' = record d { reads = suc d.reads } in
      remove_record-Removed d' id base (missing_record d id fresh) (err not_found) rev named differ
        (unfold missing_record in refl) (unfold missing_record in refl) at_id (λ old f. absurd (cc))
        (unfold missing_record in HasRoom-new_hlc (now d.reads))
        (unfold missing_record in HasRoom-update (now (suc d.reads)) (now d.reads)) done

  -- After a `Remove` that succeeds, of an id or a document with an id other than that of the vector's
  -- own record, `Get` of the id reports that there is no such document, and the cache holds the
  -- revision that `Remove` returned, which continues the one that was there. The store is one that keeps
  -- the promises of a store; a record that was there carries its names, and its clock has
  -- room for an update and a tick.
  pub get-remove :
      (target : Target) (d : DocDb S) (rev : Bytes)
      → collection_or_default d.collection ≡ d.collection
      → eqb meta_vector_id (target_id target) ≡ false
      → Filed d (target_id target)
      → (remove ops lib now false target d).1 ≡ ok rev
      → (get ops lib now false (target_id target) (remove ops lib now false target d).0
          ≡ err doc_not_found)
        × (lookup (target_id target) (remove ops lib now false target d).0.revs ≡ some rev)
        × (rev ≡ gen_rev lib (base_rev (want_rev target) (lookup (target_id target) d.revs)) [])
  unfolding remove
  get-remove target d rev named differ filed done =
      let id = target_id target in
      let want = want_rev target in
      let o = lookup id d.revs in
      elim (Bool-cases (is_another target)) [
        | inl a ↦ absurd (cc (rw a at done))
        | inr a ↦ elim (Bool-cases (is_empty id)) [
          | inl b ↦ absurd (cc (rw (a, b) at done))
          | inr b ↦ elim (Bool-cases (stale_at want o)) [
            | inl c ↦ absurd (cc (rw (a, b, c) at done))
            | inr c ↦
                let (r, is_rev) =
                  remove_found-Removed d id (base_rev want o) _ rev named differ filed refl
                    (rw (a, b, c) at done) in
                rw (a, b, c) (r.0, r.1, is_rev)
          ]
        ]
      ]
