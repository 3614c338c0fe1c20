-- ===== src/DocDb/Conflicts.antt =====
-- The revisions that `Put` of sdk/docdb.go refuses, and what a refused document leaves.
use nell_db.Base.{
  ℕ, ◌≡◌, ◌≢◌, ◌∙◌, ◌↔◌, refl, sym, ap, Bool, true, false, Option, none, some, [], ◌∷◌, Bool-cases,
  inl, inr, arith, ◌++◌,
}
use nell_db.Base.Int.{ℤ}
use nell_db.Base.Bytes.{Bytes, eqb, eqb_refl}
use nell_db.Base.Map.{lookup, insert, lookup-insert}
use nell_db.Base.Result.{Result, ok, err}
use nell_db.Hlc.{Hlc}
use nell_db.Record.{Record}
use nell_db.Doc.{Doc, Library, field_id, field_rev, is_empty, text_field, or_empty, gen_rev}
use nell_db.DocDb.Engine.{Store, StoreError}
use nell_db.DocDb.{
  DocDb, DocError, conflict, finish_put, put_in, next_clock, put_record, put_based, put,
  encode_body, check_rev, stale,
}
use nell_db.DocDb.Steps.{SameCache, revs-written, finish_put-cases, put-cases, encode_body-cases}

is_empty-append : (b c : Bytes) (x : ℕ) → is_empty (b ++ (x ∷ c)) ≡ false
unfolding is_empty
is_empty-append [] c x = refl
is_empty-append (y ∷ b) c x = refl

is_empty-gen_rev : (lib : Library) (base raw : Bytes) → is_empty (gen_rev lib base raw) ≡ false
unfolding gen_rev
is_empty-gen_rev lib base raw = is_empty-append (lib.print _) (lib.sha1_hex raw) 45

check_rev-cached :
    (incoming cur : Bytes)
    → is_empty cur ≡ false
    → (check_rev incoming (some cur) ≡ none)
      ↔ ((is_empty incoming ≡ false) × (eqb incoming cur ≡ false))
unfolding check_rev stale
check_rev-cached incoming cur full = ground arith

module _ {S : Type 0} (ops : Store S) (lib : Library) (now : ℕ → ℤ) where
  finish_put_err :
      (d : DocDb S) (id : Bytes) (doc : Doc) (rev : Bytes) (clk : Hlc)
      (res : Result StoreError (Bool × Record)) (e : DocError)
      → (finish_put ops lib now d id doc rev clk res).1 ≡ err e
      → SameCache ops lib now d (finish_put ops lib now d id doc rev clk res).0 × (e ≢ conflict)
  unfolding finish_put
  finish_put_err d id doc rev clk (err x) e h = ((refl, refl, refl, refl), λ q. cc)
  finish_put_err d id doc rev clk (ok r) e h = absurd (cc)

  put_record_err :
      (d : DocDb S) (id : Bytes) (doc : Doc) (enc : Option (Bytes × Bytes)) (e : DocError)
      → (put_record ops lib now d id doc enc).1 ≡ err e
      → SameCache ops lib now d (put_record ops lib now d id doc enc).0 × (e ≢ conflict)
  unfolding put_record put_in next_clock
  put_record_err d id doc none e h = ((refl, refl, refl, refl), λ q. cc)
  put_record_err d id doc (some (rev, final)) e h = finish_put_err _ id doc rev _ _ e h

  put_based_err :
      (d : DocDb S) (id : Bytes) (doc : Doc) (o : Option Bytes) (e : DocError)
      → (put_based ops lib now d id doc o).1 ≡ err e
      → SameCache ops lib now d (put_based ops lib now d id doc o).0 × (e ≡ conflict → o ≡ none)
  unfolding put_based
  put_based_err d id doc none e h = ((refl, refl, refl, refl), λ q. refl)
  put_based_err d id doc (some base) e h =
      let (same, other) = put_record_err d id doc (encode_body lib doc base) e h in
      (same, λ q. absurd (other q))

  -- A `Put` that fails, for whatever reason, leaves the cache of revisions, the name of the collection and
  -- of the node, and what every subscriber has received as they were.
  pub put_err :
      (cancelled : Bool) (doc : Doc) (d : DocDb S) (e : DocError)
      → (put ops lib now cancelled doc d).1 ≡ err e
      → SameCache ops lib now d (put ops lib now cancelled doc d).0
  unfolding put
  put_err true doc d e h = (refl, refl, refl, refl)
  put_err false doc d e h =
      let id = or_empty (text_field field_id doc) in
      let o = check_rev (or_empty (text_field field_rev doc)) (lookup id d.revs) in
      elim (Bool-cases (is_empty id)) [
        | inl t ↦ rw t (refl, refl, refl, refl)
        | inr t ↦ rw t (put_based_err d id doc o e (rw t at h)).0
      ]

  put-conflict :
      (doc : Doc) (d : DocDb S)
      → is_empty (or_empty (text_field field_id doc)) ≡ false
      → ((put ops lib now false doc d).1 ≡ err conflict) ↔ (
          check_rev
            (or_empty (text_field field_rev doc))
            (lookup (or_empty (text_field field_id doc)) d.revs)
          ≡ none)
  unfolding put
  put-conflict doc d t =
      let id = or_empty (text_field field_id doc) in
      let o = check_rev (or_empty (text_field field_rev doc)) (lookup id d.revs) in
      rw t
        ((λ h. (put_based_err d id doc o conflict h).1 refl), λ q. rw q (unfold put_based in refl))

  revs-put_record :
      (d : DocDb S) (id : Bytes) (doc : Doc) (rev final : Bytes) (out : Bytes × Doc)
      → (put_record ops lib now d id doc (some (rev, final))).1 ≡ ok out
      → ((put_record ops lib now d id doc (some (rev, final))).0.revs ≡ insert id rev d.revs)
        × (out.0 ≡ rev)
  unfolding put_record put_in next_clock
  revs-put_record d id doc rev final out done =
      let (res, stored, is_rev, after) = finish_put-cases ops lib now _ id doc rev _ _ out done in
      (ap (λ x. x.revs) after ∙ (revs-written ops lib now _ id rev _ _ _).0, is_rev)

  -- What a `Put` that succeeds leaves in the cache: the revision that it returns, which is no empty
  -- string.
  revs-put :
      (doc : Doc) (d : DocDb S) (out : Bytes × Doc)
      → (put ops lib now false doc d).1 ≡ ok out
      → (lookup (or_empty (text_field field_id doc)) (put ops lib now false doc d).0.revs
          ≡ some out.0)
        × (is_empty out.0 ≡ false)
  revs-put doc d out done =
      let id = or_empty (text_field field_id doc) in
      let (base, rev, final, enc, same) = put-cases ops lib now doc d out done in
      let (raw, raw_enc, is_gen, final_enc) = encode_body-cases lib doc base rev final enc in
      let (cache, is_rev) =
        revs-put_record d id doc rev final out (ap (λ x. x.1) (sym same) ∙ done) in
      (
        ap (λ x. lookup id x.0.revs) same
            ∙ ap (lookup id) cache
            ∙ lookup-insert id id rev d.revs
            ∙ rw (eqb_refl id) (ap some (sym is_rev)),
        ap is_empty (is_rev ∙ is_gen) ∙ is_empty-gen_rev lib base raw,
      )

  -- After a `Put` that succeeds, a `Put` of a document with the same id is a conflict exactly
  -- when the document carries a revision and that is another one than the first `Put` returned.
  pub put-put :
      (doc next : Doc) (d : DocDb S) (out : Bytes × Doc)
      → (put ops lib now false doc d).1 ≡ ok out
      → text_field field_id next ≡ text_field field_id doc
      → is_empty (or_empty (text_field field_id doc)) ≡ false
      → ((put ops lib now false next (put ops lib now false doc d).0).1 ≡ err conflict) ↔ (
          (is_empty (or_empty (text_field field_rev next)) ≡ false)
          × (eqb (or_empty (text_field field_rev next)) out.0 ≡ false))
  put-put doc next d out done same_id named =
      let d' = (put ops lib now false doc d).0 in
      let (cached, full) = revs-put doc d out done in
      let incoming = or_empty (text_field field_rev next) in
      let id_of = ap or_empty same_id in
      let now_cached : lookup (or_empty (text_field field_id next)) d'.revs ≡ some out.0 =
        ap (λ i. lookup i d'.revs) id_of ∙ cached in
      let (to, from) = put-conflict next d' (ap is_empty id_of ∙ named) in
      let (fwd, back) = check_rev-cached incoming out.0 full in
      (
        (λ h. fwd (ap (check_rev incoming) (sym now_cached) ∙ to h)),
        (λ h. from (ap (check_rev incoming) now_cached ∙ back h)),
      )
