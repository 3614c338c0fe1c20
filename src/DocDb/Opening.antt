-- ===== src/DocDb/Opening.antt =====
-- `New` and `reindex` of sdk/docdb.go with `readMetaClock` and `readMetaVector`: opening a database on a
-- store that may hold records already.
use nell_db.Base.{
  ℕ, ◌≡◌, ◌∙◌, refl, false, Option, none, some, List, [], ◌∷◌, Has, inl, inr, arith, if◌then◌else◌,
}
use nell_db.Base.Bytes.{Bytes, eqb, eqb_refl}
use nell_db.Base.Map.{Map, lookup, insert, lookup-insert}
use nell_db.Base.Result.{Result, ok, err}
use nell_db.Hlc.{Hlc, zero_hlc, greater_than}
use nell_db.Hlc.Order.{greater_than_irrefl, le_trans_hlc, greater_than_asymm}
use nell_db.Knowledge.{KnowledgeVector}
use nell_db.Record.{Record}
use nell_db.MemoryStore.{collection_or_default}
use nell_db.Doc.{Library, rev_imported, or_else, read_rev}
use nell_db.Doc.Feed.{new_changes_hub}
use nell_db.DocDb.Engine.{Store, StoreError}
use nell_db.DocDb.{DocDb, meta_clock_id, meta_vector_id}

-- The loop of `reindex`: the cache, and the greatest clock.
unfoldable pub index_revs : Library → Map Bytes → List Record → Map Bytes
index_revs lib revs [] = revs
index_revs lib revs (rec ∷ recs) =
    index_revs lib (insert rec.id (or_else (read_rev lib rec) rev_imported) revs) recs

unfoldable pub greater : Hlc → Hlc → Hlc
greater a b = if greater_than a b then a else b

unfoldable pub max_clock_of : Hlc → List Record → Hlc
max_clock_of c [] = c
max_clock_of c (rec ∷ recs) = max_clock_of (greater rec.clock c) recs

unfoldable pub seen_or : Option Hlc → Hlc → Hlc
seen_or none c = c
seen_or (some mc) c = greater mc c

unfoldable pub decode_clock : Library → Result StoreError Record → Option Hlc
decode_clock lib (err e) = none
decode_clock lib (ok rec) = lib.unmarshal_clock rec.payload

unfoldable pub decode_vector : Library → Result StoreError Record → Option KnowledgeVector
decode_vector lib (err e) = none
decode_vector lib (ok rec) = lib.unmarshal_vector rec.payload

unfoldable pub vector_or_nil : Option KnowledgeVector → KnowledgeVector
vector_or_nil none = []
vector_or_nil (some kv) = kv

module _ {S : Type 0} (ops : Store S) (lib : Library) where
  unfoldable pub read_meta_clock : DocDb S → Option Hlc
  read_meta_clock d = decode_clock lib (ops.get d.store d.collection meta_clock_id)

  unfoldable pub read_meta_vector : DocDb S → Option KnowledgeVector
  read_meta_vector d = decode_vector lib (ops.get d.store d.collection meta_vector_id)

  unfoldable pub reindex_listed : DocDb S → Result StoreError (List Record) → DocDb S
  reindex_listed d (err e) = d
  reindex_listed d (ok all) = record d {
    revs = index_revs lib [] all;
    last_seen_clock = seen_or (read_meta_clock d) (max_clock_of zero_hlc all);
  }

  unfoldable pub reindex : DocDb S → DocDb S
  reindex d = reindex_listed d (ops.list d.store d.collection)

  -- `New`
  unfoldable pub new_doc_db : S → Bytes → Bytes → ℕ → DocDb S
  new_doc_db s node_id collection reads =
      let d : DocDb S = record {
        store = s;
        node_id = node_id;
        collection = collection_or_default collection;
        revs = [];
        vector = [];
        last_seen_clock = zero_hlc;
        subs = new_changes_hub;
        reads = reads;
      } in
      reindex (record d { vector = vector_or_nil (read_meta_vector d) })

-- The ids of the listed records differ.
unfoldable pub OneEach : List Record → Type 0
OneEach [] = Unit {0}
OneEach (rec ∷ recs) = ((r : Record) → Has r recs → eqb r.id rec.id ≡ false) × OneEach recs

index_revs-other :
    (lib : Library) (revs : Map Bytes) (all : List Record) (k : Bytes)
    → ((r : Record) → Has r all → eqb r.id k ≡ false)
    → lookup k (index_revs lib revs all) ≡ lookup k revs
unfolding index_revs
index_revs-other lib revs [] k away = refl
index_revs-other lib revs (rec ∷ recs) k away =
    let rev = or_else (read_rev lib rec) rev_imported in
    index_revs-other lib (insert rec.id rev revs) recs k (λ r h. away r (inr h))
    ∙ lookup-insert rec.id k rev revs
    ∙ rw (away rec (inl refl)) refl

index_revs-Has :
    (lib : Library) (revs : Map Bytes) (all : List Record) (rec : Record)
    → OneEach all
    → Has rec all
    → lookup rec.id (index_revs lib revs all) ≡ some (or_else (read_rev lib rec) rev_imported)
unfolding index_revs OneEach
index_revs-Has lib revs [] rec one h = absurd h
index_revs-Has lib revs (r ∷ recs) rec one (inl e) =
    let rev = or_else (read_rev lib r) rev_imported in
    let here : lookup r.id (index_revs lib (insert r.id rev revs) recs) ≡ some rev =
      index_revs-other lib (insert r.id rev revs) recs r.id one.0
      ∙ lookup-insert r.id r.id rev revs
      ∙ rw (eqb_refl r.id) refl in
    rw (← e) here
index_revs-Has lib revs (r ∷ recs) rec one (inr h) =
    index_revs-Has lib (insert r.id (or_else (read_rev lib r) rev_imported) revs) recs rec one.1 h

greater-ge_left : (a b : Hlc) → greater_than a (greater a b) ≡ false
unfolding greater
greater-ge_left a b = ground (arith, greater_than_irrefl a)

greater-ge_right : (a b : Hlc) → greater_than b (greater a b) ≡ false
unfolding greater
greater-ge_right a b = ground (arith, greater_than_irrefl b, greater_than_asymm a b)

max_clock_of-ge : (c : Hlc) (all : List Record) → greater_than c (max_clock_of c all) ≡ false
unfolding max_clock_of
max_clock_of-ge c [] = greater_than_irrefl c
max_clock_of-ge c (r ∷ recs) =
    le_trans_hlc c (greater r.clock c) _ (greater-ge_right r.clock c)
      (max_clock_of-ge (greater r.clock c) recs)

pub max_clock_of-ge_each :
    (c : Hlc) (all : List Record) (rec : Record)
    → Has rec all
    → greater_than rec.clock (max_clock_of c all) ≡ false
unfolding max_clock_of
max_clock_of-ge_each c [] rec h = absurd h
max_clock_of-ge_each c (r ∷ recs) rec (inl e) = rw (← e) (
    le_trans_hlc r.clock (greater r.clock c) _ (greater-ge_left r.clock c)
      (max_clock_of-ge (greater r.clock c) recs))
max_clock_of-ge_each c (r ∷ recs) rec (inr h) = max_clock_of-ge_each (greater r.clock c) recs rec h

seen_or-ge : (o : Option Hlc) (c : Hlc) → greater_than c (seen_or o c) ≡ false
unfolding seen_or
seen_or-ge none c = greater_than_irrefl c
seen_or-ge (some mc) c = greater-ge_right mc c

seen_or-ge_persisted :
    (o : Option Hlc) (c mc : Hlc) → o ≡ some mc → greater_than mc (seen_or o c) ≡ false
unfolding seen_or
seen_or-ge_persisted none c mc e = cc
seen_or-ge_persisted (some m) c mc e = let same : m ≡ mc = cc in rw (← same) (greater-ge_left m c)

-- A database that is opened on a store whose list has each id once: the cache has, for each
-- listed record, the revision in its payload, or the placeholder when there is none; the
-- last seen clock is no less than the clock of any listed record and than the persisted clock.
pub new_doc_db-index :
    {S : Type 0} (ops : Store S) (lib : Library) (s : S) (node_id collection : Bytes) (reads : ℕ)
    (all : List Record)
    → ops.list s (collection_or_default collection) ≡ ok all
    → OneEach all
    → ((rec : Record)
        → Has rec all
        → (lookup rec.id (new_doc_db ops lib s node_id collection reads).revs
            ≡ some (or_else (read_rev lib rec) rev_imported))
          × (greater_than rec.clock (new_doc_db ops lib s node_id collection reads).last_seen_clock
              ≡ false))
      × ((mc : Hlc)
          → decode_clock lib (ops.get s (collection_or_default collection) meta_clock_id) ≡ some mc
          → greater_than mc (new_doc_db ops lib s node_id collection reads).last_seen_clock ≡ false)
unfolding new_doc_db reindex reindex_listed read_meta_clock
new_doc_db-index ops lib s node_id collection reads all listed one = rw listed (
  (λ rec h. (
    index_revs-Has lib [] all rec one h,
    le_trans_hlc rec.clock (max_clock_of zero_hlc all) _ (max_clock_of-ge_each zero_hlc all rec h)
        (seen_or-ge _ (max_clock_of zero_hlc all)),
  )),
  (λ mc e. seen_or-ge_persisted _ (max_clock_of zero_hlc all) mc e),
)
