-- ===== src/DocDb/Steps.antt =====
-- The parts that `Put` of sdk/docdb.go is made of: what each leaves alone, and what a success has gone
-- through.
use nell_db.Base.{
  ℕ, List, ◌≡◌, ◌∙◌, refl, Bool, false, Option, none, some, Bool-cases, inl, inr, arith,
  Option-cases,
}
use nell_db.Base.Int.{ℤ}
use nell_db.Base.Bytes.{Bytes}
use nell_db.Base.Map.{lookup, insert}
use nell_db.Base.Result.{Result, ok, err}
use nell_db.Hlc.{Hlc}
use nell_db.Record.{Record}
use nell_db.Doc.{
  Doc, text, Library, field_id, field_rev, is_empty, text_field, or_empty, is_deleted, split_doc,
  gen_rev,
}
use nell_db.DocDb.Engine.{Store, StoreError}
use nell_db.DocDb.{
  DocDb, next_clock, put_in, finish_put, put_record, put_based, put, write_meta, write_meta_vector,
  observe_vector, written, meta_vector_id, encode_body, check_rev, clocks_of,
}

-- What `encodeBody` gives, when it gives anything.
pub encode_body-cases :
    (lib : Library) (doc : Doc) (base rev final : Bytes)
    → encode_body lib doc base ≡ some (rev, final)
    → (raw : Bytes) × (lib.marshal (split_doc doc) ≡ some raw)
      × (rev ≡ gen_rev lib base raw)
      × (lib.marshal (insert field_rev (text (gen_rev lib base raw)) (split_doc doc)) ≡ some final)
unfolding encode_body
encode_body-cases lib doc base rev final h = elim (Option-cases (lib.marshal (split_doc doc))) [
  | inl e ↦ absurd (cc (rw e at h))
  | inr (raw, e) ↦
      elim (Option-cases
        (lib.marshal (insert field_rev (text (gen_rev lib base raw)) (split_doc doc)))) [
          | inl f ↦ absurd (cc (rw (e, f) at h))
          | inr (fin, f) ↦ let g = rw (e, f) at h in (raw, e, cc g, f ∙ cc g)
        ]
]

module _ {S : Type 0} (ops : Store S) (lib : Library) (now : ℕ → ℤ) where
  -- What the bookkeeping leaves alone.
  abbrev pub SameCache : DocDb S → DocDb S → Type 0
  SameCache d d' =
      (d'.revs ≡ d.revs)
      × (d'.collection ≡ d.collection)
      × (d'.node_id ≡ d.node_id)
      × (d'.subs ≡ d.subs)

  pub write_meta-SameCache :
      (d : DocDb S) (id : Bytes) (seen : List Hlc) (payload : Option Bytes)
      → SameCache d (write_meta ops lib now d id seen payload).0
  unfolding write_meta put_in next_clock
  write_meta-SameCache d id seen none = (refl, refl, refl, refl)
  write_meta-SameCache d id seen (some payload) = (refl, refl, refl, refl)

  pub observe_vector-SameCache :
      (d : DocDb S) (node_id : Bytes) (clock : Hlc)
      → SameCache d (observe_vector ops lib now d node_id clock)
  unfolding observe_vector write_meta_vector
  observe_vector-SameCache d node_id clock =
      let kv = insert node_id clock d.vector in
      ground (
        arith,
        write_meta-SameCache (record d { vector = kv }) meta_vector_id (clocks_of kv)
            (lib.marshal_vector kv),
      )

  pub revs-written :
      (d : DocDb S) (id rev : Bytes) (clock : Hlc) (deleted : Bool) (doc : Doc)
      → ((written ops lib now d id rev clock deleted doc).revs ≡ insert id rev d.revs)
        × ((written ops lib now d id rev clock deleted doc).collection ≡ d.collection)
  unfolding written
  revs-written d id rev clock deleted doc =
      let same =
        observe_vector-SameCache (record d { revs = insert id rev d.revs }) d.node_id clock in
      (same.0, same.1)

  -- A `Put` that succeeded has gone through the store's.
  pub finish_put-cases :
      (d : DocDb S) (id : Bytes) (doc : Doc) (rev : Bytes) (clk : Hlc)
      (res : Result StoreError (Bool × Record)) (out : Bytes × Doc)
      → (finish_put ops lib now d id doc rev clk res).1 ≡ ok out
      → (r : Bool × Record) × (res ≡ ok r)
        × (out.0 ≡ rev)
        × ((finish_put ops lib now d id doc rev clk res).0
            ≡ written ops lib now d id rev clk (is_deleted doc) (insert field_rev (text rev) doc))
  unfolding finish_put
  finish_put-cases d id doc rev clk (err e) out h = absurd (cc)
  finish_put-cases d id doc rev clk (ok r) out h = (r, refl, cc, refl)

  -- A `Put` that succeeds has passed the test of the revisions and encoded its body.
  pub put-cases :
      (doc : Doc) (d : DocDb S) (out : Bytes × Doc)
      → (put ops lib now false doc d).1 ≡ ok out
      → (base : Bytes) × (rev : Bytes) × (final : Bytes) × (encode_body lib doc base
          ≡ some (rev, final))
        × (put ops lib now false doc d
            ≡ put_record ops lib now d (or_empty (text_field field_id doc)) doc (some (rev, final)))
  unfolding put put_based
  put-cases doc d out h =
      let id = or_empty (text_field field_id doc) in
      let checked = check_rev (or_empty (text_field field_rev doc)) (lookup id d.revs) in
      elim (Bool-cases (is_empty id)) [
        | inl t ↦ absurd (cc (rw t at h))
        | inr t ↦ elim (Option-cases checked) [
          | inl c ↦ absurd (cc (rw (t, c) at h))
          | inr (base, c) ↦ elim (Option-cases (encode_body lib doc base)) [
            | inl e ↦ absurd (unfold put_record in cc (rw (t, c, e) at h))
            | inr ((rev, final), e) ↦ (base, rev, final, e, rw (t, c, e) refl)
          ]
        ]
      ]
