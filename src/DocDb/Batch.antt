-- ===== src/DocDb/Batch.antt =====
-- `PutMany` and `GetMany` of sdk/docdb.go, and what a batch that fails leaves in the cache. The
-- documents of a batch are separate maps. A context may be cancelled before any of the documents.
use nell_db.Base.{
  ℕ, suc, ◌≡◌, ◌∙◌, refl, Bool, true, false, Option, none, some, List, [], ◌∷◌, ◌&&◌, not,
  Bool-cases, inl, inr, arith, if◌then◌else◌,
}
use nell_db.Base.Int.{ℤ}
use nell_db.Base.Bytes.{Bytes, eqb, eqb_iff}
use nell_db.Base.Map.{Map, lookup, insert, delete, lookup-insert, lookup-delete}
use nell_db.Base.Result.{Result, ok, err}
use nell_db.Hlc.{Hlc}
use nell_db.Record.{Record}
use nell_db.Doc.{
  Doc, text, Library, field_id, field_rev, text_field, or_empty, is_deleted, is_empty,
}
use nell_db.DocDb.Engine.{Store, StoreError}
use nell_db.DocDb.{
  DocDb, DocError, cancelled_context, doc_not_found, at_index, put, get, put_based, put_record,
  finish_put, next_clock, put_in, encode_body,
}
use nell_db.DocDb.Steps.{revs-written}

pub record BulkSnap : Type 0 where
  pub id : Bytes
  pub rev : Bytes
  pub existed : Bool

unfoldable pub snap_of : Bytes → Option Bytes → BulkSnap
snap_of id none = record { id = id; rev = []; existed = false }
snap_of id (some rev) = record { id = id; rev = rev; existed = true }

abbrev pub doc_id : Doc → Bytes
doc_id doc = or_empty (text_field field_id doc)

-- The loop that fills `prev`.
unfoldable pub snapshots : Map Bytes → List Doc → List BulkSnap
snapshots revs [] = []
snapshots revs (doc ∷ docs) = snap_of (doc_id doc) (lookup (doc_id doc) revs) ∷ snapshots revs docs

unfoldable pub restore_one : BulkSnap → Map Bytes → Map Bytes
restore_one s revs = if s.existed then insert s.id s.rev revs else delete s.id revs

-- The loop of `rollback`.
unfoldable pub restore : List BulkSnap → Map Bytes → Map Bytes
restore [] revs = revs
restore (s ∷ prev) revs = restore prev (restore_one s revs)

unfoldable pub rollback : {S : Type 0} → List BulkSnap → DocDb S → DocDb S
rollback prev d = record d { revs = restore prev d.revs }

module _ {S : Type 0} (ops : Store S) (lib : Library) (now : ℕ → ℤ) where
  abbrev pub Batch : Type 0
  Batch = DocDb S × Result DocError (List Bytes)

  -- One turn of the loop of `PutMany`, with the turns that follow if it succeeds.
  unfoldable pub prepend_rev : Bytes → Result DocError (List Bytes) → Result DocError (List Bytes)
  prepend_rev rev (ok revs) = ok (rev ∷ revs)
  prepend_rev rev (err e) = err e

  unfoldable pub turn : ℕ → DocDb S → Result DocError (Bytes × Doc) → Batch → Batch
  turn i d (err e) rest = (d, err (at_index i e))
  turn i d (ok (rev, doc)) rest = (rest.0, prepend_rev rev rest.1)

  unfoldable pub put_each : (ℕ → Bool) → ℕ → List Doc → DocDb S → Batch
  put_each cancelled i [] d = (d, ok [])
  put_each cancelled i (doc ∷ docs) d =
      let (d', res) = put ops lib now (cancelled i) doc d in
      turn i d' res (put_each cancelled (suc i) docs d')

  -- The end of `PutMany`.
  unfoldable pub finish_batch : List BulkSnap → Batch → Batch
  finish_batch prev (d, ok revs) = (d, ok revs)
  finish_batch prev (d, err e) = (rollback prev d, err e)

  unfoldable pub put_many : Bool → (ℕ → Bool) → List Doc → DocDb S → Batch
  put_many cancelled cancelled_at docs d =
      if cancelled
      then (d, err cancelled_context)
      else finish_batch (snapshots d.revs docs) (put_each cancelled_at 0 docs d)

  -- One turn of the loop of `GetMany`.
  unfoldable pub get_turn :
      Bytes → Result DocError Doc → Result DocError (Map Doc) → Result DocError (Map Doc)
  get_turn id (err doc_not_found) rest = rest
  get_turn id (err e) rest = err e
  get_turn id (ok doc) (err e) = err e
  get_turn id (ok doc) (ok out) = ok (insert id doc out)

  unfoldable pub get_each : (ℕ → Bool) → ℕ → List Bytes → DocDb S → Result DocError (Map Doc)
  get_each cancelled i [] d = ok []
  get_each cancelled i (id ∷ ids) d =
      get_turn id (get ops lib now (cancelled i) id d) (get_each cancelled (suc i) ids d)

  unfoldable pub get_many : Bool → (ℕ → Bool) → List Bytes → DocDb S → Result DocError (Map Doc)
  get_many cancelled cancelled_at ids d =
      if cancelled then err cancelled_context else get_each cancelled_at 0 ids d

-- No document of the batch has this id.
unfoldable absent : Bytes → List Doc → Bool
absent k [] = true
absent k (doc ∷ docs) = not (eqb (doc_id doc) k) && absent k docs

lookup-restore_one :
    (id k : Bytes) (o : Option Bytes) (m : Map Bytes)
    → lookup k (restore_one (snap_of id o) m) ≡ (if eqb id k then o else lookup k m)
unfolding restore_one snap_of
lookup-restore_one id k none m = lookup-delete id k m
lookup-restore_one id k (some rev) m = lookup-insert id k rev m

-- Restoring the snapshots repairs a cache that differs at the ids of the batch only.
restore-snapshots :
    (before : Map Bytes) (docs : List Doc) (m : Map Bytes)
    → ((k : Bytes) → absent k docs ≡ true → lookup k m ≡ lookup k before)
    → (k : Bytes) → lookup k (restore (snapshots before docs) m) ≡ lookup k before
unfolding restore snapshots absent
restore-snapshots before [] m same k = same k refl
restore-snapshots before (doc ∷ docs) m same k =
    let id = doc_id doc in
    let o = lookup id before in
    restore-snapshots before docs (restore_one (snap_of id o) m)
      (λ j away. ground (arith, lookup-restore_one id j o m, same j, eqb_iff id j)) k

module _ {S : Type 0} (ops : Store S) (lib : Library) (now : ℕ → ℤ) where
  revs-finish_put :
      (d : DocDb S) (id : Bytes) (doc : Doc) (rev : Bytes) (clk : Hlc)
      (res : Result StoreError (Bool × Record)) (k : Bytes)
      → eqb id k ≡ false
      → lookup k (finish_put ops lib now d id doc rev clk res).0.revs ≡ lookup k d.revs
  unfolding finish_put
  revs-finish_put d id doc rev clk (err e) k away = refl
  revs-finish_put d id doc rev clk (ok r) k away =
      rw
        (
          (revs-written ops lib now d id rev clk (is_deleted doc)
              (insert field_rev (text rev) doc)).0,
          lookup-insert id k rev d.revs,
          away,
        )
        refl

  revs-put_record :
      (d : DocDb S) (id : Bytes) (doc : Doc) (enc : Option (Bytes × Bytes)) (k : Bytes)
      → eqb id k ≡ false
      → lookup k (put_record ops lib now d id doc enc).0.revs ≡ lookup k d.revs
  unfolding put_record put_in next_clock
  revs-put_record d id doc none k away = refl
  revs-put_record d id doc (some (rev, final)) k away = revs-finish_put _ id doc rev _ _ k away

  revs-put_based :
      (d : DocDb S) (id : Bytes) (doc : Doc) (o : Option Bytes) (k : Bytes)
      → eqb id k ≡ false
      → lookup k (put_based ops lib now d id doc o).0.revs ≡ lookup k d.revs
  unfolding put_based
  revs-put_based d id doc none k away = refl
  revs-put_based d id doc (some base) k away =
      revs-put_record d id doc (encode_body lib doc base) k away

  revs-put :
      (cancelled : Bool) (doc : Doc) (d : DocDb S) (k : Bytes)
      → eqb (doc_id doc) k ≡ false
      → lookup k (put ops lib now cancelled doc d).0.revs ≡ lookup k d.revs
  unfolding put
  revs-put true doc d k away = refl
  revs-put false doc d k away = elim (Bool-cases (is_empty (doc_id doc))) [
    | inl t ↦ rw t refl
    | inr t ↦ rw t (revs-put_based d (doc_id doc) doc _ k away)
  ]

  revs-turn :
      (i : ℕ) (d : DocDb S) (res : Result DocError (Bytes × Doc)) (rest : Batch ops lib now)
      (k : Bytes) (before : Option Bytes)
      → lookup k d.revs ≡ before
      → lookup k rest.0.revs ≡ before
      → lookup k (turn ops lib now i d res rest).0.revs ≡ before
  unfolding turn
  revs-turn i d (err e) rest k before h g = h
  revs-turn i d (ok r) rest k before h g = g

  revs-put_each :
      (cancelled : ℕ → Bool) (i : ℕ) (docs : List Doc) (d : DocDb S) (k : Bytes)
      → absent k docs ≡ true
      → lookup k (put_each ops lib now cancelled i docs d).0.revs ≡ lookup k d.revs
  unfolding put_each absent
  revs-put_each cancelled i [] d k away = refl
  revs-put_each cancelled i (doc ∷ docs) d k away =
      let here : eqb (doc_id doc) k ≡ false = ground arith in
      let there : absent k docs ≡ true = ground arith in
      let (d', res) = put ops lib now (cancelled i) doc d in
      let kept = revs-put (cancelled i) doc d k here in
      revs-turn i d' res (put_each ops lib now cancelled (suc i) docs d') k (lookup k d.revs) kept
        (revs-put_each cancelled (suc i) docs d' k there ∙ kept)

  finish_batch_err :
      (prev : List BulkSnap) (b : Batch ops lib now) (e : DocError)
      → (finish_batch ops lib now prev b).1 ≡ err e
      → (finish_batch ops lib now prev b).0 ≡ rollback prev b.0
  unfolding finish_batch
  finish_batch_err prev (d, ok revs) e h = absurd (cc)
  finish_batch_err prev (d, err x) e h = refl

  -- A batch that fails, at whichever document and for whatever reason, leaves the cache of
  -- revisions with what it held for every id before the batch.
  pub revs-put_many :
      (cancelled : Bool) (cancelled_at : ℕ → Bool) (docs : List Doc) (d : DocDb S) (e : DocError)
      → (put_many ops lib now cancelled cancelled_at docs d).1 ≡ err e
      → (k : Bytes)
      → lookup k (put_many ops lib now cancelled cancelled_at docs d).0.revs ≡ lookup k d.revs
  unfolding put_many
  revs-put_many true cancelled_at docs d e h k = refl
  revs-put_many false cancelled_at docs d e h k =
      rw (finish_batch_err (snapshots d.revs docs) (put_each ops lib now cancelled_at 0 docs d) e h)
        (unfold rollback in
          restore-snapshots d.revs docs (put_each ops lib now cancelled_at 0 docs d).0.revs
            (revs-put_each cancelled_at 0 docs d) k)
