-- ===== src/Tests/Batches.antt =====
-- Batches, removals, listings and openings of databases.
use mathlib.Core.List.{Perm}
use mathlib.Core.List.Perm
use nell_db.Base.{
  ℕ, zero, suc, ◌+◌, ◌<◌, ◌≤◌, ◌≡◌, refl, ap, sym, ◌∷◌, [], ◌++◌, Bool, true, false, Option, none,
  some, List, length, arith, Has, inl, inr,
}
use nell_db.Base.Int.{ℤ, pos, negsuc, ltb_ℤ}
use nell_db.Base.Bytes.{Bytes, eqb}
use nell_db.Base.Map.{lookup}
use nell_db.Base.Result.{ok, err}
use nell_db.Hlc.{Hlc, zero_hlc, greater_than, update, new_hlc}
use nell_db.Hlc.Clock.{HasRoom}
use nell_db.Record.{Record}
use nell_db.MemoryStore.{MemoryStore, collection_or_default}
use nell_db.Doc.{Doc, text, gen_rev, rev_imported, or_else, read_rev}
use nell_db.DocDb.Engine.{memory_engine, memory_engine-IsLawful}
use nell_db.DocDb.{DocDb, DocError, missing_id, at_index, doc_not_found, get, meta_clock_id}
use nell_db.DocDb.Batch.{put_many, revs-put_many}
use nell_db.DocDb.Deletion.{by_id, remove}
use nell_db.DocDb.Removal.{get-remove}
use nell_db.DocDb.Rows.{
  DocRow, DocRange, AllDocsResult, all_docs, scan, apply_skip, apply_limit, to_nat,
}
use nell_db.DocDb.Listing.{all_docs-scan}
use nell_db.DocDb.Opening.{new_doc_db, decode_clock, OneEach, new_doc_db-index}
use nell_db.Tests.Databases.{docs, engine, times, stocked, note, note_rev, at_first}
use nell_db.Tests.Samples.{node_a, first}

-- The second document has no id.
abbrev batch : List Doc
batch = note ∷ [] ∷ []

batch_fails :
    (put_many engine docs times false (λ i. false) batch stocked).1 ≡ err (at_index 1 missing_id)
unfolding nell_db.DocDb.Batch.put_many nell_db.DocDb.Batch.finish_batch nell_db.DocDb.Batch.put_each
    nell_db.DocDb.Batch.turn nell_db.DocDb.Batch.prepend_rev nell_db.DocDb.put nell_db.Doc.is_empty
    nell_db.Doc.or_empty nell_db.Doc.text_field nell_db.Doc.as_text nell_db.Doc.split_doc
    nell_db.Doc.is_reserved nell_db.Base.Map.lookup nell_db.Base.Bytes.eqb nell_db.DocDb.put_based
    nell_db.DocDb.check_rev nell_db.DocDb.put_record nell_db.DocDb.encode_body
    nell_db.DocDb.finish_put nell_db.DocDb.put_in nell_db.DocDb.Engine.memory_engine
    nell_db.MemoryStore.get nell_db.MemoryStore.put nell_db.MemoryStore.put_at
    nell_db.MemoryStore.new_memory_store nell_db.MemoryStore.put_new nell_db.Base.Map.insert
    nell_db.MemoryStore.key nell_db.MemoryStore.with_collection
    nell_db.MemoryStore.collection_or_default nell_db.Doc.gen_rev nell_db.Doc.next_gen
    nell_db.Doc.before_dash nell_db.Doc.inc_int nell_db.DocDb.base_rev nell_db.DocDb.stale
    nell_db.DocDb.next_clock nell_db.DocDb.written nell_db.DocDb.observe_vector
    nell_db.DocDb.write_meta nell_db.DocDb.write_meta_vector nell_db.Base.Int.ltb_ℤ
    nell_db.Base.Int.eqb_ℤ nell_db.Tests.Databases.ones nell_db.Tests.Databases.marshal_rev
batch_fails = refl

revs-put_many_example :
    lookup (49 ∷ []) (put_many engine docs times false (λ i. false) batch stocked).0.revs
    ≡ lookup (49 ∷ []) stocked.revs
revs-put_many_example =
    revs-put_many engine docs times false (λ i. false) batch stocked (at_index 1 missing_id)
      batch_fails (49 ∷ [])

stocked-Filed :
    (old : Record)
    → engine.get stocked.store stocked.collection (49 ∷ []) ≡ ok old
    → (old.collection ≡ stocked.collection)
      × (old.id ≡ 49 ∷ [])
      × HasRoom old.clock
      × HasRoom (update (new_hlc (times stocked.reads)) old.clock)
unfolding update new_hlc nell_db.Hlc.inc_int32 ltb_ℤ nell_db.Base.Int.eqb_ℤ
stocked-Filed old e =
    let same : first ≡ old = cc at_first in
    rw (← same) (
      refl,
      refl,
      record { room = λ q. absurd (ground arith) },
      record { room = λ q. absurd (ground arith) },
    )

remove_first : (remove engine docs times false (by_id (49 ∷ [])) stocked).1 ≡ ok note_rev
unfolding nell_db.DocDb.Deletion.remove nell_db.DocDb.Deletion.is_another
    nell_db.DocDb.Deletion.target_id nell_db.DocDb.Deletion.want_rev nell_db.DocDb.Deletion.stale_at
    nell_db.DocDb.Deletion.remove_found nell_db.DocDb.Deletion.remove_record
    nell_db.DocDb.Deletion.finish_remove nell_db.DocDb.put nell_db.Doc.is_empty nell_db.Doc.or_empty
    nell_db.Doc.text_field nell_db.Doc.as_text nell_db.Doc.split_doc nell_db.Doc.is_reserved
    nell_db.Base.Map.lookup nell_db.Base.Bytes.eqb nell_db.DocDb.put_based nell_db.DocDb.check_rev
    nell_db.DocDb.put_record nell_db.DocDb.encode_body nell_db.DocDb.finish_put nell_db.DocDb.put_in
    nell_db.DocDb.Engine.memory_engine nell_db.MemoryStore.get nell_db.MemoryStore.put
    nell_db.MemoryStore.put_at nell_db.MemoryStore.new_memory_store nell_db.MemoryStore.put_new
    nell_db.Base.Map.insert nell_db.MemoryStore.key nell_db.MemoryStore.with_collection
    nell_db.MemoryStore.collection_or_default nell_db.Doc.gen_rev nell_db.Doc.next_gen
    nell_db.Doc.before_dash nell_db.Doc.inc_int nell_db.DocDb.base_rev nell_db.DocDb.stale
    nell_db.DocDb.next_clock nell_db.DocDb.written nell_db.DocDb.observe_vector
    nell_db.DocDb.write_meta nell_db.DocDb.write_meta_vector nell_db.Base.Int.ltb_ℤ
    nell_db.Base.Int.eqb_ℤ nell_db.Tests.Databases.ones nell_db.Tests.Databases.marshal_rev
remove_first = refl

get-remove_example :
    (get engine docs times false
        (49 ∷ [])
        (remove engine docs times false (by_id (49 ∷ [])) stocked).0
      ≡ err doc_not_found)
    × (lookup (49 ∷ []) (remove engine docs times false (by_id (49 ∷ [])) stocked).0.revs
        ≡ some note_rev)
    × (note_rev ≡ gen_rev docs [] [])
unfolding collection_or_default eqb nell_db.DocDb.Deletion.target_id nell_db.DocDb.base_rev lookup
    nell_db.DocDb.Deletion.want_rev
get-remove_example =
    get-remove engine docs times (memory_engine-IsLawful (λ s c v n. [])) (by_id (49 ∷ [])) stocked
      note_rev refl refl stocked-Filed remove_first

abbrev every : DocRange
every = record {
  start_key = [];
  end_key = [];
  inclusive_end = false;
  limit = pos 1;
  skip = pos 0;
  keys = [];
  include_docs = false;
}

stocked_lists : engine.list stocked.store stocked.collection ≡ ok (first ∷ [])
unfolding memory_engine nell_db.MemoryStore.list nell_db.MemoryStore.live_records
    nell_db.MemoryStore.set_or_new lookup nell_db.MemoryStore.put nell_db.MemoryStore.put_at
    nell_db.MemoryStore.new_memory_store nell_db.MemoryStore.put_new nell_db.MemoryStore.index_key
    nell_db.Base.Map.insert eqb nell_db.MemoryStore.with_collection collection_or_default
    nell_db.MemoryStore.record_at nell_db.MemoryStore.key
stocked_lists = refl

all_docs-scan_example :
    (res : AllDocsResult) × (all_docs engine docs false 4 (λ results. results) every stocked
      ≡ ok res)
    × (res.total_rows ≡ length (scan docs stocked.revs every (first ∷ [])))
    × (rows : List DocRow) × Perm rows (scan docs stocked.revs every (first ∷ []))
    × (res.rows ≡ apply_limit (pos 1) (apply_skip (pos 0) rows))
    × (ltb_ℤ (pos 0) (pos 1) ≡ true → length res.rows ≤ to_nat (pos 1))
all_docs-scan_example =
    all_docs-scan engine docs 4 (λ results. results) every stocked (first ∷ []) (omega arith)
      (λ results. Perm.refl results) refl stocked_lists

one_first : OneEach (first ∷ [])
unfolding OneEach
one_first = ((λ r h. absurd h), tt)

new_doc_db-index_example :
    ((rec : Record)
      → Has rec (first ∷ [])
      → (lookup rec.id (new_doc_db engine docs stocked.store node_a (120 ∷ []) 0).revs
          ≡ some (or_else (read_rev docs rec) rev_imported))
        × (greater_than rec.clock
              (new_doc_db engine docs stocked.store node_a (120 ∷ []) 0).last_seen_clock
            ≡ false))
    × ((mc : Hlc)
        → decode_clock docs
            (engine.get stocked.store (collection_or_default (120 ∷ [])) meta_clock_id)
          ≡ some mc
        → greater_than mc (new_doc_db engine docs stocked.store node_a (120 ∷ []) 0).last_seen_clock
          ≡ false)
unfolding collection_or_default
new_doc_db-index_example =
    new_doc_db-index engine docs stocked.store node_a (120 ∷ []) 0 (first ∷ []) stocked_lists
      one_first
