-- ===== src/DocDb/Rows.antt =====
-- `AllDocs` and `SearchSimilar` of sdk/docdb.go. The workers of a scan send their rows in any order: it is the
-- argument `arrive`, which permutes what they send. The number of processors is an argument.
use nell_db.Base.{
  ℕ, zero, suc, ◌+◌, ◌-◌, ◌*◌, ◌/◌, min, Bool, Option, none, some, List, [], ◌∷◌, ◌++◌, not, ltb,
  length, take, drop, if◌then◌else◌, ◌||◌, map,
}
use nell_db.Base.Int.{ℤ, pos, ltb_ℤ}
use nell_db.Base.Bytes.{Bytes}
use nell_db.Base.Map.{Map, lookup, insert}
use nell_db.Base.Result.{Result, ok, err}
use nell_db.Record.{Record}
use nell_db.Doc.{
  Doc, text, Library, field_rev, rev_imported, is_empty, or_empty, or_else, join_doc, read_rev,
  key_in_range,
}
use nell_db.DocDb.Engine.{Store, StoreError}
use nell_db.DocDb.{DocDb, DocError, cancelled_context, store_failed}

pub record DocRange : Type 0 where
  pub start_key : Bytes
  pub end_key : Bytes
  pub inclusive_end : Bool
  pub limit : ℤ
  pub skip : ℤ
  pub keys : List Bytes
  pub include_docs : Bool

pub record DocRow : Type 0 where
  pub id : Bytes
  pub key : Bytes
  pub rev : Bytes
  pub doc : Option Doc

pub record AllDocsResult : Type 0 where
  pub total_rows : ℕ
  pub offset : ℕ
  pub rows : List DocRow

unfoldable pub to_nat : ℤ → ℕ
to_nat (pos n) = n
to_nat _ = 0

unfoldable pub row_rev : Library → Option Bytes → Record → Bytes
row_rev lib cached rec =
    let rev = or_else cached (or_empty (read_rev lib rec)) in
    if is_empty rev then rev_imported else rev

unfoldable pub make_row : Library → Map Bytes → Bool → Bytes → Record → DocRow
make_row lib revs include_doc id rec = record {
  id = id;
  key = id;
  rev = row_rev lib (lookup id revs) rec;
  doc = if include_doc then some (join_doc lib id rec) else none;
}

unfoldable pub in_range : DocRange → Bytes → Bool
in_range rng id = key_in_range id rng.start_key rng.end_key rng.inclusive_end

-- The loop of a worker.
unfoldable pub scan : Library → Map Bytes → DocRange → List Record → List DocRow
scan lib revs rng [] = []
scan lib revs rng (rec ∷ recs) =
    let rest = scan lib revs rng recs in
    if rec.deleted || not (in_range rng rec.id)
    then rest
    else make_row lib revs rng.include_docs rec.id rec ∷ rest

unfoldable pub num_workers : ℕ → List Record → ℕ
num_workers cpus all = if ltb (length all) 10000 then 1 else min cpus 12

unfoldable pub chunk_size : ℕ → List Record → ℕ
chunk_size workers all = (length all + workers - 1) / workers

-- The loop over the workers from `w` on, `left` of them: the slices that they are given.
unfoldable pub chunks : ℕ → ℕ → ℕ → List Record → List (List Record)
chunks zero w size all = []
chunks (suc left) w size all =
    let start = w * size in
    let end = min (start + size) (length all) in
    let rest = chunks left (suc w) size all in
    if not (ltb start (length all)) then [] else take (end - start) (drop start all) ∷ rest

unfoldable pub gather : List (List DocRow) → List DocRow
gather [] = []
gather (rows ∷ results) = rows ++ gather results

unfoldable pub apply_skip : ℤ → List DocRow → List DocRow
apply_skip skip rows =
    if not (ltb_ℤ (pos 0) skip)
    then rows
    else if not (ltb (to_nat skip) (length rows))
    then []
    else drop (to_nat skip) rows

unfoldable pub apply_limit : ℤ → List DocRow → List DocRow
apply_limit limit rows =
    if not (ltb_ℤ (pos 0) limit)
    then rows
    else if ltb (to_nat limit) (length rows)
    then take (to_nat limit) rows
    else rows

-- The end of `AllDocs`, on the rows of all workers.
unfoldable pub page_of : DocRange → List DocRow → AllDocsResult
page_of rng rows = record {
  total_rows = length rows;
  offset = 0;
  rows = apply_limit rng.limit (apply_skip rng.skip rows);
}

-- The parallel scan.
unfoldable pub scan_all :
    Library
    → Map Bytes
    → ℕ
    → (List (List DocRow) → List (List DocRow))
    → DocRange
    → List Record
    → List DocRow
scan_all lib revs cpus arrive rng all =
    let workers = num_workers cpus all in
    gather (arrive (map (scan lib revs rng) (chunks workers 0 (chunk_size workers all) all)))

-- The rows of one of the `Keys`.
unfoldable pub row_of_key :
    Library → Map Bytes → DocRange → Bytes → Result StoreError Record → List DocRow
row_of_key lib revs rng id (err e) = []
row_of_key lib revs rng id (ok rec) =
    if rec.deleted then [] else make_row lib revs rng.include_docs id rec ∷ []

module _ {S : Type 0} (ops : Store S) (lib : Library) where
  unfoldable pub rows_of_keys : DocDb S → DocRange → List Bytes → List DocRow
  rows_of_keys d rng [] = []
  rows_of_keys d rng (id ∷ ids) =
      let rest = rows_of_keys d rng ids in
      let row = row_of_key lib d.revs rng id (ops.get d.store d.collection id) in
      if not (in_range rng id) then rest else row ++ rest

  unfoldable pub all_listed :
      ℕ
      → (List (List DocRow) → List (List DocRow))
      → DocRange
      → DocDb S
      → Result StoreError (List Record)
      → Result DocError AllDocsResult
  all_listed cpus arrive rng d (err e) = err (store_failed e)
  all_listed cpus arrive rng d (ok all) = ok (page_of rng (scan_all lib d.revs cpus arrive rng all))

  unfoldable pub all_docs :
      Bool
      → ℕ
      → (List (List DocRow) → List (List DocRow))
      → DocRange
      → DocDb S
      → Result DocError AllDocsResult
  all_docs cancelled cpus arrive rng d =
      let rows = rows_of_keys d rng rng.keys in
      if cancelled
      then err cancelled_context
      else if ltb 0 (length rng.keys)
      then ok (record { total_rows = length rows; offset = 0; rows = rows })
      else all_listed cpus arrive rng d (ops.list d.store d.collection)

  -- The loop of `SearchSimilar` over the store's answer.
  unfoldable pub cached_rev : Option Bytes → Doc → Doc
  cached_rev none doc = doc
  cached_rev (some rev) doc = insert field_rev (text rev) doc

  unfoldable pub similar_docs : Map Bytes → List Record → List Doc
  similar_docs revs [] = []
  similar_docs revs (rec ∷ recs) =
      cached_rev (lookup rec.id revs) (join_doc lib rec.id rec) ∷ similar_docs revs recs

  unfoldable pub similar_result :
      DocDb S → Result StoreError (List Record) → Result DocError (List Doc)
  similar_result d (err e) = err (store_failed e)
  similar_result d (ok records) = ok (similar_docs d.revs records)

  unfoldable pub search_similar : Bool → List ℕ → ℤ → DocDb S → Result DocError (List Doc)
  search_similar cancelled vector limit d =
      if cancelled
      then err cancelled_context
      else similar_result d (
          ops.search_similar d.store d.collection vector
            (if ltb_ℤ (pos 0) limit then limit else pos 10))
