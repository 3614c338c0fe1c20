-- ===== src/DocDb/Ingest.antt =====
-- `ingestRemote` of sdk/replicate.go and `advanceClock` of sdk/meta.go: what a database does with the
-- records that come from a peer.
use nell_db.Base.{
  ℕ, ◌≡◌, refl, Bool, true, false, Option, none, some, List, [], ◌∷◌, not, arith, if◌then◌else◌,
}
use nell_db.Base.Int.{ℤ}
use nell_db.Base.Bytes.{Bytes}
use nell_db.Base.Map.{lookup, insert}
use nell_db.Base.Result.{Result, ok, err}
use nell_db.Hlc.{Hlc, greater_than, zero_hlc}
use nell_db.Record.{Record}
use nell_db.Knowledge
use nell_db.Knowledge.{KnowledgeVector, unseen}
use nell_db.Doc.{
  Doc, flag, Library, field_deleted, rev_remote, or_else, is_empty, join_doc, read_rev,
  is_internal_id,
}
use nell_db.Doc.Feed.{broadcast}
use nell_db.DocDb.Engine.{Store, StoreError}
use nell_db.DocDb.{
  DocDb, Returns, store_failed, put_in, write_meta, write_meta_vector, observe_vector,
  meta_clock_id, meta_vector_id, next_clock, clock_at, clocks_of,
}

-- The document of the change that `ingestRemote` broadcasts.
unfoldable pub remote_doc : Library → Record → Doc
remote_doc lib rec =
    let doc = join_doc lib rec.id rec in
    if rec.deleted then insert field_deleted (flag true) doc else doc

module _ {S : Type 0} (ops : Store S) (lib : Library) (now : ℕ → ℤ) where
  -- `ingestRemote` after the store's `Put`.
  unfoldable pub finish_ingest :
      DocDb S → Record → Result StoreError (Bool × Record) → Returns ops lib now (Unit {0})
  finish_ingest d rec (err e) = (d, err (store_failed e))
  finish_ingest d rec (ok res) =
      let rev = or_else (read_rev lib rec) rev_remote in
      let d' =
        observe_vector ops lib now (record d { revs = insert rec.id rev d.revs }) rec.updated_by
          rec.clock in
      (
        record d' {
          subs =
              broadcast d'.subs (record {
                id = rec.id;
                rev = rev;
                deleted = rec.deleted;
                doc = remote_doc lib rec;
              });
        },
        ok tt,
      )

  unfoldable pub ingest_remote : Record → DocDb S → Returns ops lib now (Unit {0})
  ingest_remote rec d =
      let (d', res) = put_in ops lib now d rec in
      let ingested = finish_ingest d' rec res in
      if is_internal_id rec.id then (d, ok tt) else ingested

  unfoldable pub write_meta_clock : DocDb S → Hlc → Returns ops lib now (Unit {0})
  write_meta_clock d c = write_meta ops lib now d meta_clock_id (c ∷ []) (lib.marshal_clock c)

  unfoldable pub advance_clock : Hlc → DocDb S → Returns ops lib now (Unit {0})
  advance_clock c d =
      let written = write_meta_clock (record d { last_seen_clock = c }) c in
      if not (greater_than c d.last_seen_clock) then (d, ok tt) else written

  pub vector-write_meta :
      (d : DocDb S) (id : Bytes) (seen : List Hlc) (payload : Option Bytes)
      → (write_meta ops lib now d id seen payload).0.vector ≡ d.vector
  unfolding write_meta put_in next_clock
  vector-write_meta d id seen none = refl
  vector-write_meta d id seen (some payload) = refl

  insert_or_update :
      (kv : KnowledgeVector) (node_id : Bytes) (clock : Hlc)
      → greater_than clock zero_hlc ≡ true
      → (if greater_than clock (clock_at (lookup node_id kv)) then insert node_id clock kv else kv)
        ≡ Knowledge.update kv node_id clock
  unfolding Knowledge.update clock_at
  insert_or_update kv node_id clock after = ground arith

  -- Observing a clock after the zero clock updates the vector.
  pub vector-observe_vector :
      (d : DocDb S) (node_id : Bytes) (clock : Hlc)
      → is_empty node_id ≡ false
      → greater_than clock zero_hlc ≡ true
      → (observe_vector ops lib now d node_id clock).vector
        ≡ Knowledge.update d.vector node_id clock
  unfolding observe_vector write_meta_vector
  vector-observe_vector d node_id clock named after =
      let kv = insert node_id clock d.vector in
      let kept =
        vector-write_meta (record d { vector = kv }) meta_vector_id (clocks_of kv)
          (lib.marshal_vector kv) in
      ground (arith, kept, insert_or_update d.vector node_id clock after)

  finish_ingest-vector :
      (d : DocDb S) (rec : Record) (res : Result StoreError (Bool × Record))
      → is_empty rec.updated_by ≡ false
      → greater_than rec.clock zero_hlc ≡ true
      → (finish_ingest d rec res).1 ≡ ok tt
      → (finish_ingest d rec res).0.vector ≡ Knowledge.update d.vector rec.updated_by rec.clock
  unfolding finish_ingest
  finish_ingest-vector d rec (err e) named after done = absurd (cc)
  finish_ingest-vector d rec (ok res) named after done =
      vector-observe_vector (record d { revs = insert rec.id _ d.revs }) rec.updated_by rec.clock
        named after

  -- What a peer's record that is no bookkeeping record does to the vector when it is ingested.
  pub ingest_remote-vector :
      (rec : Record) (d : DocDb S)
      → is_internal_id rec.id ≡ false
      → is_empty rec.updated_by ≡ false
      → greater_than rec.clock zero_hlc ≡ true
      → (ingest_remote rec d).1 ≡ ok tt
      → (ingest_remote rec d).0.vector ≡ Knowledge.update d.vector rec.updated_by rec.clock
  unfolding ingest_remote put_in
  ingest_remote-vector rec d plain named after done =
      rw plain (finish_ingest-vector _ rec _ named after (rw plain at done))
