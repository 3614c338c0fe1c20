-- ===== src/DocDb/Deletion.antt =====
-- `Remove`, `Destroy` and `Info` of sdk/docdb.go.
use nell_db.Base.{
  ℕ, suc, Bool, true, false, Option, none, some, List, [], ◌∷◌, not, if◌then◌else◌, filter, length,
}
use nell_db.Base.Int.{ℤ}
use nell_db.Base.Bytes.{Bytes}
use nell_db.Base.Map.{lookup}
use nell_db.Base.Result.{Result, ok, err}
use nell_db.Hlc.{Hlc, new_hlc, zero_hlc}
use nell_db.Record.{Record}
use nell_db.Doc.{
  Doc, text, flag, Library, field_id, field_rev, field_deleted, type_text, is_empty, text_field,
  or_empty, gen_rev, is_internal_id,
}
use nell_db.DocDb.Engine.{Store, StoreError, not_found, failed}
use nell_db.DocDb.{
  DocDb, DocError, cancelled_context, bad_argument, missing_id, conflict, store_failed, Returns,
  stale, base_rev, next_clock, put_in, written,
}

-- The argument of `Remove`, which is of any type.
pub data Target : Type 0 where
  by_id : Bytes → Target
  by_doc : Doc → Target
  another : Target

unfoldable pub target_id : Target → Bytes
target_id (by_id id) = id
target_id (by_doc doc) = or_empty (text_field field_id doc)
target_id another = []

unfoldable pub want_rev : Target → Bytes
want_rev (by_doc doc) = or_empty (text_field field_rev doc)
want_rev _ = []

unfoldable pub is_another : Target → Bool
is_another another = true
is_another _ = false

-- The document of the change that `Remove` broadcasts.
unfoldable pub tombstone_doc : Bytes → Bytes → Doc
tombstone_doc id rev = (field_id, text id) ∷ (field_rev, text rev) ∷ (field_deleted, flag true) ∷ []

unfoldable pub stale_at : Bytes → Option Bytes → Bool
stale_at want none = false
stale_at want (some cur) = stale want cur

-- The record of an id that the store does not have.
unfoldable pub missing_record : {S : Type 0} → DocDb S → Bytes → Hlc → Record
missing_record d id clock = record {
  collection = d.collection;
  id = id;
  type = type_text;
  payload = [];
  vector = [];
  clock = clock;
  updated_by = d.node_id;
  deleted = false;
}

module _ {S : Type 0} (ops : Store S) (lib : Library) (now : ℕ → ℤ) where
  -- `Remove` after the store's `Put`.
  unfoldable pub finish_remove :
      DocDb S → Bytes → Bytes → Hlc → Result StoreError (Bool × Record) → Returns ops lib now Bytes
  finish_remove d id base clk (err e) = (d, err (store_failed e))
  finish_remove d id base clk (ok res) =
      let rev = gen_rev lib base [] in
      (written ops lib now d id rev clk true (tombstone_doc id rev), ok rev)

  -- `Remove` on the record that the store has, or on the one made for it.
  unfoldable pub remove_record : DocDb S → Bytes → Bytes → Record → Returns ops lib now Bytes
  remove_record d id base rec =
      let (d₁, clk) = next_clock ops lib now d (rec.clock ∷ []) in
      let (d₂, res) =
        put_in ops lib now d₁
          (record rec { deleted = true; updated_by = d.node_id; clock = clk }) in
      finish_remove d₂ id base clk res

  unfoldable pub remove_found :
      DocDb S → Bytes → Bytes → Result StoreError Record → Returns ops lib now Bytes
  remove_found d id base (ok rec) = remove_record d id base rec
  remove_found d id base (err (failed e)) = (d, err (store_failed (failed e)))
  remove_found d id base (err not_found) =
      remove_record (record d { reads = suc d.reads }) id base
        (missing_record d id (new_hlc (now d.reads)))

  -- `Remove`
  unfoldable pub remove : Bool → Target → DocDb S → Returns ops lib now Bytes
  remove cancelled target d =
      let id = target_id target in
      let want = want_rev target in
      if cancelled
      then (d, err cancelled_context)
      else if is_another target
      then (d, err bad_argument)
      else if is_empty id
      then (d, err missing_id)
      else if stale_at want (lookup id d.revs)
      then (d, err conflict)
      else remove_found d id (base_rev want (lookup id d.revs)) (ops.get d.store d.collection id)

  -- The loop of `Destroy`. A record that the store no longer has is passed over.
  unfoldable pub then_destroy :
      Result DocError Bytes
      → DocDb S
      → Returns ops lib now (Unit {0})
      → Returns ops lib now (Unit {0})
  then_destroy (err e) d rest = (d, err e)
  then_destroy (ok rev) d rest = rest

  unfoldable pub is_found : Result StoreError Record → Bool
  is_found (ok rec) = true
  is_found (err e) = false

  unfoldable pub destroy_each :
      (ℕ → Bool) → ℕ → List Record → DocDb S → Returns ops lib now (Unit {0})
  destroy_each cancelled i [] d = (d, ok tt)
  destroy_each cancelled i (rec ∷ recs) d =
      let skipped = destroy_each cancelled (suc i) recs d in
      let (d', res) = remove (cancelled i) (by_id rec.id) d in
      let removed = then_destroy res d' (destroy_each cancelled (suc i) recs d') in
      if is_internal_id rec.id
      then skipped
      else if is_found (ops.get d.store d.collection rec.id)
      then removed
      else skipped

  unfoldable pub clear : Returns ops lib now (Unit {0}) → Returns ops lib now (Unit {0})
  clear (d, err e) = (d, err e)
  clear (d, ok _) = (record d { revs = []; last_seen_clock = zero_hlc; vector = [] }, ok tt)

  unfoldable pub destroy_listed :
      (ℕ → Bool) → DocDb S → Result StoreError (List Record) → Returns ops lib now (Unit {0})
  destroy_listed cancelled d (err e) = (d, err (store_failed e))
  destroy_listed cancelled d (ok all) = clear (destroy_each cancelled 0 all d)

  unfoldable pub destroy : (ℕ → Bool) → DocDb S → Returns ops lib now (Unit {0})
  destroy cancelled d = destroy_listed cancelled d (ops.list d.store d.collection)

  -- `Info` without the time of the snapshot.
  pub record Info : Type 0 where
    pub node_id : Bytes
    pub doc_count : ℕ
    pub tombstone_count : ℕ
    pub last_seen_clock : Hlc

  unfoldable pub listed : Result StoreError (List Record) → List Record
  listed (ok all) = all
  listed (err e) = []

  unfoldable pub info : DocDb S → Info
  info d = record {
    node_id = d.node_id;
    doc_count =
        length (filter (λ r. not (is_internal_id r.id)) (listed (ops.list d.store d.collection)));
    tombstone_count = 0;
    last_seen_clock = d.last_seen_clock;
  }
