-- ===== src/DocDb/Puts.antt =====
-- What `Put` of sdk/docdb.go leaves: the document that `Get` returns, and the state after an error.
use nell_db.Base.{
  ℕ, List, [], ◌∷◌, ◌+◌, ◌≡◌, ◌∙◌, refl, sym, ap, Bool, true, false, Option, none, some, inl, inr,
  arith,
}
use nell_db.Base.Int.{ℤ}
use nell_db.Base.Bytes.{Bytes, eqb, eqb_refl}
use nell_db.Base.Map.{lookup, insert, lookup-insert}
use nell_db.Base.Result.{Result, ok, err}
use nell_db.Hlc.{Hlc, new_hlc, update, greater_than}
use nell_db.Hlc.Clock.{HasRoom, tick-update_greater}
use nell_db.Record.{Record}
use nell_db.Resolve.Order.{beats}
use nell_db.MemoryStore.{collection_or_default}
use nell_db.MemoryStore.Put.{merge, merge_cases}
use nell_db.Doc.{
  Doc, Value, text, Library, is_reserved, as_text, field_id, field_rev, text_field, or_empty,
  is_deleted, split_doc, join_doc, gen_rev,
}
use nell_db.Doc.Body.{IsFaithful, join_doc-fields, lookup-split_doc}
use nell_db.DocDb.Engine.{Store, StoreError, IsLawful, found}
use nell_db.DocDb.Steps.{revs-written, finish_put-cases, put-cases, encode_body-cases}
use nell_db.DocDb.{
  DocDb, stamp, update_all, next_clock, seen_clocks, put_in, put_record, put, got, get, write_meta,
  write_meta_vector, observe_vector, written, meta_vector_id, meta_record, record_of_doc, clocks_of,
}

merge_newer : (old r : Record) → greater_than r.clock old.clock ≡ true → merge (some old) r ≡ r
merge_newer old r newer = elim (merge_cases old r) [
  | inl (e, p) ↦ p
  | inr (e, p) ↦ absurd (unfold beats in cc)
]

no_id-body : (doc : Doc) (v : Value) → lookup field_id (insert field_rev v (split_doc doc)) ≡ none
unfolding eqb is_reserved
no_id-body doc v =
    lookup-insert field_rev field_id v (split_doc doc) ∙ lookup-split_doc field_id doc

rev-body :
    (doc : Doc) (rev : Bytes)
    → text_field field_rev (insert field_rev (text rev) (split_doc doc)) ≡ some rev
rev-body doc rev =
    unfold text_field in
    unfold as_text in
    rw (lookup-insert field_rev field_rev (text rev) (split_doc doc), eqb_refl field_rev) refl

-- A record with the next clock after that of the record that was there replaces it.
pub merge_stamped :
    (first second : ℤ) (old r : Record)
    → r.clock ≡ stamp first second (old.clock ∷ [])
    → HasRoom old.clock
    → HasRoom (update (new_hlc first) old.clock)
    → merge (some old) r ≡ r
unfolding stamp update_all
merge_stamped first second old r is_stamp room room' =
    merge_newer old r
      (rw is_stamp (tick-update_greater second (new_hlc first) old.clock room room').0)

module _ {S : Type 0} (ops : Store S) (lib : Library) (now : ℕ → ℤ) (lawful : IsLawful ops) where
  -- The bookkeeping records do not touch another id.
  pub get-write_meta :
      (d : DocDb S) (id : Bytes) (seen : List Hlc) (payload : Option Bytes) (j : Bytes)
      → collection_or_default d.collection ≡ d.collection
      → eqb id j ≡ false
      → ops.get (write_meta ops lib now d id seen payload).0.store d.collection j
        ≡ ops.get d.store d.collection j
  unfolding write_meta put_in next_clock meta_record
  get-write_meta d id seen none j named differ = refl
  get-write_meta d id seen (some payload) j named differ = lawful.untouched _ _ j named differ

  pub get-observe_vector :
      (d : DocDb S) (node_id : Bytes) (clock : Hlc) (j : Bytes)
      → collection_or_default d.collection ≡ d.collection
      → eqb meta_vector_id j ≡ false
      → ops.get (observe_vector ops lib now d node_id clock).store d.collection j
        ≡ ops.get d.store d.collection j
  unfolding observe_vector write_meta_vector
  get-observe_vector d node_id clock j named differ = ground (
    arith,
    get-write_meta (record d { vector = insert node_id clock d.vector }) meta_vector_id
        (clocks_of (insert node_id clock d.vector))
        (lib.marshal_vector (insert node_id clock d.vector)) j named differ,
  )

  -- The end of a write leaves the store's other ids as they were.
  pub get-written :
      (d : DocDb S) (id rev : Bytes) (clock : Hlc) (deleted : Bool) (doc : Doc) (j : Bytes)
      → collection_or_default d.collection ≡ d.collection
      → eqb meta_vector_id j ≡ false
      → ops.get (written ops lib now d id rev clock deleted doc).store d.collection j
        ≡ ops.get d.store d.collection j
  unfolding written
  get-written d id rev clock deleted doc j named differ =
      get-observe_vector (record d { revs = insert id rev d.revs }) d.node_id clock j named differ

  abbrev pub new_record : DocDb S → Bytes → Doc → Bytes → Record
  new_record d id doc final = record (record_of_doc lib d id doc final) {
    clock = stamp (now d.reads) (now (d.reads + 1)) (seen_clocks (ops.get d.store d.collection id));
  }

  -- The clock of a record that is there has room for the update and the tick of a write.
  abbrev pub Room : DocDb S → Bytes → Type 0
  Room d id =
      (old : Record)
      → ops.get d.store d.collection id ≡ ok old
      → HasRoom old.clock × HasRoom (update (new_hlc (now d.reads)) old.clock)

  merge-stamp :
      (d : DocDb S) (id : Bytes) (doc : Doc) (final : Bytes) (o : Result StoreError Record)
      → ops.get d.store d.collection id ≡ o
      → Room d id
      → merge (found o) (new_record d id doc final) ≡ new_record d id doc final
  merge-stamp d id doc final (err e) at_id room = unfold merge in refl
  merge-stamp d id doc final (ok old) at_id room =
      let (r, s) = room old at_id in
      merge_stamped (now d.reads) (now (d.reads + 1)) old (new_record d id doc final)
        (rw at_id (unfold seen_clocks in refl)) r s

  get-put_record :
      (d : DocDb S) (id : Bytes) (doc : Doc) (rev final : Bytes) (out : Bytes × Doc)
      → collection_or_default d.collection ≡ d.collection
      → eqb meta_vector_id id ≡ false
      → Room d id
      → (put_record ops lib now d id doc (some (rev, final))).1 ≡ ok out
      → (ops.get (put_record ops lib now d id doc (some (rev, final))).0.store d.collection id
          ≡ ok (new_record d id doc final))
        × (out.0 ≡ rev)
        × ((put_record ops lib now d id doc (some (rev, final))).0.revs ≡ insert id rev d.revs)
        × ((put_record ops lib now d id doc (some (rev, final))).0.collection ≡ d.collection)
  unfolding put_record put_in next_clock record_of_doc
  get-put_record d id doc rev final out named differ room done =
      let rec = new_record d id doc final in
      let (res, stored, is_rev, after) = finish_put-cases ops lib now _ id doc rev _ _ out done in
      let d₂ = record d { reads = d.reads + 2; store = (ops.put d.store rec).0 } in
      let books =
        revs-written ops lib now d₂ id rev rec.clock (is_deleted doc)
          (insert field_rev (text rev) doc) in
      (
        ap (λ x. ops.get x.store d.collection id) after
            ∙ get-written d₂ id rev rec.clock (is_deleted doc) (insert field_rev (text rev) doc) id
                named differ
            ∙ lawful.stored d.store rec res named stored
            ∙ ap ok (merge-stamp d id doc final (ops.get d.store d.collection id) refl room),
        is_rev,
        ap (λ x. x.revs) after ∙ books.0,
        ap (λ x. x.collection) after ∙ books.1,
      )

  get_stored :
      (d : DocDb S) (id col : Bytes) (rec : Record)
      → d.collection ≡ col
      → ops.get d.store col id ≡ ok rec
      → rec.deleted ≡ false
      → get ops lib now false id d ≡ ok (join_doc lib id rec)
  unfolding get got
  get_stored d id col rec c stored live = rw (c, stored, live) refl

  -- After a `Put` that succeeds, of a document that is not marked deleted, with an id other than
  -- that of the vector's own record, `Get` of that id returns a document with that `_id` and with the
  -- revision that `Put` returned, and the cache of revisions holds that revision. The store is one
  -- that keeps the promises of a store, the encoding of a body comes back, and the clock of a
  -- record that was there has room for an update and a tick.
  pub get-put :
      (faithful : IsFaithful lib) (doc : Doc) (d : DocDb S) (out : Bytes × Doc)
      → collection_or_default d.collection ≡ d.collection
      → eqb meta_vector_id (or_empty (text_field field_id doc)) ≡ false
      → Room d (or_empty (text_field field_id doc))
      → is_deleted doc ≡ false
      → (put ops lib now false doc d).1 ≡ ok out
      → (got : Doc) × (get ops lib now false
            (or_empty (text_field field_id doc))
            (put ops lib now false doc d).0
          ≡ ok got)
        × (text_field field_id got ≡ some (or_empty (text_field field_id doc)))
        × (text_field field_rev got ≡ some out.0)
        × (lookup (or_empty (text_field field_id doc)) (put ops lib now false doc d).0.revs
            ≡ some out.0)
  unfolding record_of_doc
  get-put faithful doc d out named differ room live done =
      let id = or_empty (text_field field_id doc) in
      let (base, rev, final, enc, same) = put-cases ops lib now doc d out done in
      let (raw, raw_enc, is_gen, final_enc) = encode_body-cases lib doc base rev final enc in
      let (stored, is_rev, cache, col) =
        get-put_record d id doc rev final out named differ room (ap (λ x. x.1) (sym same) ∙ done) in
      let rec = new_record d id doc final in
      let body = insert field_rev (text (gen_rev lib base raw)) (split_doc doc) in
      let fields =
        join_doc-fields lib faithful id base raw body rec final_enc
          (no_id-body doc (text (gen_rev lib base raw))) (rev-body doc (gen_rev lib base raw)) in
      (
        join_doc lib id rec,
        ap (λ x. get ops lib now false id x.0) same
            ∙ get_stored _ id d.collection rec col stored live,
        fields.0,
        fields.1 ∙ ap some (sym is_gen ∙ sym is_rev),
        ap (λ x. lookup id x.0.revs) same
            ∙ ap (lookup id) cache
            ∙ lookup-insert id id rev d.revs
            ∙ rw (eqb_refl id) (ap some (sym is_rev)),
      )
