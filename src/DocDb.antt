-- ===== src/DocDb.antt =====
-- `DocDB` of sdk/docdb.go, with sdk/meta.go and sdk/vector.go: a database of documents over a store.
-- A method is a function from the database to the new one and its result; that a context was cancelled is
-- the argument `cancelled`. The system's clock is the parameter `now`, and `reads` counts how often
-- it was read. Two calls of methods do not overlap here. The text of an error is left out.
pub mod Engine
pub mod Steps
pub mod Puts
pub mod Conflicts
pub mod Batch
pub mod Deletion
pub mod Removal
pub mod Rows
pub mod Chunks
pub mod Listing
pub mod Opening
pub mod Ingest
use nell_db.Base.{
  ℕ, suc, ◌+◌, Bool, true, false, Option, none, some, List, [], ◌∷◌, ◌++◌, ◌&&◌, not, length,
  if◌then◌else◌,
}
use nell_db.Base.Int.{ℤ}
use nell_db.Base.Bytes.{Bytes, eqb}
use nell_db.Base.Map.{Map, lookup, insert, delete}
use nell_db.Base.Result.{Result, ok, err}
use nell_db.Hlc.{Hlc, new_hlc, tick, update, greater_than, zero_hlc}
use nell_db.Record.{Record, zero_record}
use nell_db.Knowledge.{KnowledgeVector}
use nell_db.MemoryStore.{collection_or_default}
use nell_db.Doc.{
  Doc, Value, text, flag, Library, field_id, field_rev, field_deleted, field_type, field_vector,
  type_text, rev_imported, rev_remote, is_empty, text_field, or_empty, or_else, is_deleted,
  split_doc, as_vector, join_doc, read_rev, gen_rev, is_internal_id,
}
use nell_db.Doc.Feed.{Change, ChangesHub, new_changes_hub, broadcast}
use nell_db.DocDb.Engine.{Store, StoreError, not_found, failed}

pub data DocError : Type 0 where
  cancelled_context missing_id conflict doc_not_found marshal_failed bad_argument : DocError
  store_failed : StoreError → DocError
  at_index : ℕ → DocError → DocError

pub record DocDb (S : Type 0) : Type 0 where
  pub store : S
  pub node_id : Bytes
  pub collection : Bytes
  pub revs : Map Bytes
  pub vector : KnowledgeVector
  pub last_seen_clock : Hlc
  pub subs : ChangesHub
  pub reads : ℕ

-- "meta:clock" and "meta:vector"
abbrev pub meta_clock_id : Bytes
meta_clock_id = 109 ∷ 101 ∷ 116 ∷ 97 ∷ 58 ∷ 99 ∷ 108 ∷ 111 ∷ 99 ∷ 107 ∷ []

abbrev pub meta_vector_id : Bytes
meta_vector_id = 109 ∷ 101 ∷ 116 ∷ 97 ∷ 58 ∷ 118 ∷ 101 ∷ 99 ∷ 116 ∷ 111 ∷ 114 ∷ []

-- `incoming != "" && cur != "" && incoming != cur`
unfoldable pub stale : Bytes → Bytes → Bool
stale incoming cur = not (is_empty incoming) && not (is_empty cur) && not (eqb incoming cur)

-- The revision that a write continues.
unfoldable pub base_rev : Bytes → Option Bytes → Bytes
base_rev incoming none = incoming
base_rev incoming (some cur) = if is_empty incoming then cur else incoming

-- The test of `Put`: the revision to continue, or none for a conflict.
unfoldable pub check_rev : Bytes → Option Bytes → Option Bytes
check_rev incoming none = if not (is_empty incoming) then none else some (base_rev incoming none)
check_rev incoming (some cur) =
    if stale incoming cur then none else some (base_rev incoming (some cur))

-- `clk := NewHLC(); clk.Update(...); clk.Tick()`, on the times that the two methods read.
unfoldable pub update_all : Hlc → List Hlc → Hlc
update_all clk [] = clk
update_all clk (c ∷ cs) = update_all (update clk c) cs

unfoldable pub stamp : ℤ → ℤ → List Hlc → Hlc
stamp first second seen = tick second (update_all (new_hlc first) seen)

-- The clocks that a range over a vector visits.
unfoldable pub clocks_of : KnowledgeVector → List Hlc
clocks_of [] = []
clocks_of ((node_id, c) ∷ kv) = c ∷ clocks_of kv

unfoldable pub clock_at : Option Hlc → Hlc
clock_at none = zero_hlc
clock_at (some c) = c

-- The revision of the new body, and the bytes of the body that carries it.
with_bytes : Bytes → Option Bytes → Option (Bytes × Bytes)
with_bytes rev none = none
with_bytes rev (some final) = some (rev, final)

encode_final : Library → Doc → Bytes → Option Bytes → Option (Bytes × Bytes)
encode_final lib body base none = none
encode_final lib body base (some raw) =
    let rev = gen_rev lib base raw in
    with_bytes rev (lib.marshal (insert field_rev (text rev) body))

unfoldable pub encode_body : Library → Doc → Bytes → Option (Bytes × Bytes)
unfolding with_bytes encode_final
encode_body lib doc base = let body = split_doc doc in encode_final lib body base (lib.marshal body)

unfoldable pub seen_clocks : Result StoreError Record → List Hlc
seen_clocks (ok existing) = existing.clock ∷ []
seen_clocks (err e) = []

unfoldable pub meta_record : {S : Type 0} → DocDb S → Bytes → Bytes → Hlc → Record
meta_record d id payload clock = record {
  collection = d.collection;
  id = id;
  type = type_text;
  payload = payload;
  vector = [];
  clock = clock;
  updated_by = d.node_id;
  deleted = false;
}

unfoldable pub store_error : {A : Type 0} → Result StoreError A → Result DocError (Unit {0})
store_error (ok a) = ok tt
store_error (err e) = err (store_failed e)

-- The record that `Put` writes, without its clock.
unfoldable pub record_of_doc : {S : Type 0} → Library → DocDb S → Bytes → Doc → Bytes → Record
record_of_doc lib d id doc final = record {
  collection = d.collection;
  id = id;
  type = or_else (text_field field_type doc) type_text;
  payload = final;
  vector = as_vector lib.narrow (lookup field_vector doc);
  clock = zero_hlc;
  updated_by = d.node_id;
  deleted = is_deleted doc;
}

module _ {S : Type 0} (ops : Store S) (lib : Library) (now : ℕ → ℤ) where
  abbrev pub Returns : Type 0 → Type 0
  Returns A = DocDb S × Result DocError A

  -- `NewHLC`, `Update` with every clock and `Tick`.
  unfoldable pub next_clock : DocDb S → List Hlc → DocDb S × Hlc
  next_clock d seen =
      (record d { reads = d.reads + 2 }, stamp (now d.reads) (now (d.reads + 1)) seen)

  -- What `store.Put` leaves, with its error.
  unfoldable pub put_in : DocDb S → Record → DocDb S × Result StoreError (Bool × Record)
  put_in d rec = let (s, res) = ops.put d.store rec in (record d { store = s }, res)

  -- `writeMetaClock` and `writeMetaVector` after the encoding of what they write.
  unfoldable pub write_meta : DocDb S → Bytes → List Hlc → Option Bytes → Returns (Unit {0})
  write_meta d id seen none = (d, err marshal_failed)
  write_meta d id seen (some payload) =
      let (d₁, clk) = next_clock d seen in
      let (d₂, res) = put_in d₁ (meta_record d₁ id payload clk) in (d₂, store_error res)

  unfoldable pub write_meta_vector : DocDb S → KnowledgeVector → Returns (Unit {0})
  write_meta_vector d kv = write_meta d meta_vector_id (clocks_of kv) (lib.marshal_vector kv)

  -- `observeVector`; the error of the write is dropped.
  unfoldable pub observe_vector : DocDb S → Bytes → Hlc → DocDb S
  observe_vector d node_id clock =
      let kv = insert node_id clock d.vector in
      let observed = (write_meta_vector (record d { vector = kv }) kv).0 in
      if is_empty node_id
      then d
      else if greater_than clock (clock_at (lookup node_id d.vector))
      then observed
      else d

  -- The end of `Put` and `Remove`: the cache, the vector and the feed.
  unfoldable pub written : DocDb S → Bytes → Bytes → Hlc → Bool → Doc → DocDb S
  written d id rev clock deleted doc =
      let d' = observe_vector (record d { revs = insert id rev d.revs }) d.node_id clock in
      record d' {
        subs = broadcast d'.subs (record { id = id; rev = rev; deleted = deleted; doc = doc });
      }

  -- `Put` after the store's `Put`.
  unfoldable pub finish_put :
      DocDb S
      → Bytes
      → Doc
      → Bytes
      → Hlc
      → Result StoreError (Bool × Record)
      → Returns (Bytes × Doc)
  finish_put d id doc rev clk (err e) = (d, err (store_failed e))
  finish_put d id doc rev clk (ok res) =
      let doc' = insert field_rev (text rev) doc in
      (written d id rev clk (is_deleted doc) doc', ok (rev, doc'))

  -- `Put` from the clock on.
  unfoldable pub put_record : DocDb S → Bytes → Doc → Option (Bytes × Bytes) → Returns (Bytes × Doc)
  put_record d id doc none = (d, err marshal_failed)
  put_record d id doc (some (rev, final)) =
      let (d₁, clk) = next_clock d (seen_clocks (ops.get d.store d.collection id)) in
      let (d₂, res) = put_in d₁ (record (record_of_doc lib d id doc final) { clock = clk }) in
      finish_put d₂ id doc rev clk res

  unfoldable pub put_based : DocDb S → Bytes → Doc → Option Bytes → Returns (Bytes × Doc)
  put_based d id doc none = (d, err conflict)
  put_based d id doc (some base) = put_record d id doc (encode_body lib doc base)

  -- `Put`. It returns the revision, and the caller's document with the revision filled in.
  unfoldable pub put : Bool → Doc → DocDb S → Returns (Bytes × Doc)
  put cancelled doc d =
      let id = or_empty (text_field field_id doc) in
      let incoming = or_empty (text_field field_rev doc) in
      if cancelled
      then (d, err cancelled_context)
      else if is_empty id
      then (d, err missing_id)
      else put_based d id doc (check_rev incoming (lookup id d.revs))

  -- `Get`
  unfoldable pub got : Bytes → Result StoreError Record → Result DocError Doc
  got id (err not_found) = err doc_not_found
  got id (err (failed e)) = err (store_failed (failed e))
  got id (ok rec) = if rec.deleted then err doc_not_found else ok (join_doc lib id rec)

  unfoldable pub get : Bool → Bytes → DocDb S → Result DocError Doc
  get cancelled id d =
      if cancelled then err cancelled_context else got id (ops.get d.store d.collection id)
