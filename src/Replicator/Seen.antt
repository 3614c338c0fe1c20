-- ===== src/Replicator/Seen.antt =====
-- What the vector has seen after the loop of `pull` in sdk/replicate.go.
use nell_db.Base.{
  ℕ, ◌+◌, ◌≡◌, refl, ap, ◌∙◌, true, false, List, [], ◌∷◌, All, Has, length, filter, arith,
  Bool-cases, inl, inr,
}
use nell_db.Base.Int.{ℤ}
use nell_db.Base.Bytes.{Bytes}
use nell_db.Base.Filter.{All-filter, Has-filter}
use nell_db.Hlc.{Hlc, greater_than, zero_hlc}
use nell_db.Record.{Record}
use nell_db.Knowledge
use nell_db.Knowledge.{KnowledgeVector, unseen}
use nell_db.Knowledge.Laws.{unseen-update, unseen-update_self}
use nell_db.Server.{is_missing}
use nell_db.Doc.{Library, is_internal_id, is_empty}
use nell_db.DocDb.Engine.{Store}
use nell_db.DocDb.Ingest.{ingest_remote-vector}
use nell_db.Replicator.{Pulling, pull_record}
use nell_db.Replicator.Frames.{Succeeds, pull_each, ingest_remote-ok, pull_record-ok}

-- A record of a user: not bookkeeping, with a writer and a clock after the zero clock.
pub record IsPlain (r : Record) : Type 0 where
  pub plain : is_internal_id r.id ≡ false
  pub written : is_empty r.updated_by ≡ false
  pub stamped : greater_than r.clock zero_hlc ≡ true

module _ {S : Type 0} (ops : Store S) (lib : Library) (now : ℕ → ℤ) (succeeds : Succeeds ops) where
  vector-pull_record :
      (p : Pulling ops lib now) (r : Record)
      → IsPlain r
      → (pull_record ops lib now p r).db.vector ≡ Knowledge.update p.db.vector r.updated_by r.clock
  vector-pull_record p r plain =
      ap (λ d. d.vector) (pull_record-ok ops lib now p r succeeds).1
      ∙ ingest_remote-vector ops lib now r p.db plain.plain plain.written plain.stamped
          (ingest_remote-ok ops lib now r p.db succeeds)

  stays_seen :
      (p : Pulling ops lib now) (rs : List Record) (j : Bytes) (c : Hlc)
      → All IsPlain rs
      → unseen p.db.vector j c ≡ false
      → unseen (pull_each ops lib now p rs).db.vector j c ≡ false
  unfolding pull_each
  stays_seen p [] j c plain h = h
  stays_seen p (r ∷ rs) j c (one, plain) h =
      stays_seen (pull_record ops lib now p r) rs j c plain
        (rw (vector-pull_record p r one) (unseen-update p.db.vector r.updated_by j r.clock c h))

  becomes_seen :
      (p : Pulling ops lib now) (rs : List Record) (x : Record)
      → All IsPlain rs
      → Has x rs
      → unseen (pull_each ops lib now p rs).db.vector x.updated_by x.clock ≡ false
  unfolding pull_each
  becomes_seen p [] x plain h = absurd h
  becomes_seen p (r ∷ rs) x (one, plain) (inl e) = rw (← e) (
      stays_seen (pull_record ops lib now p r) rs r.updated_by r.clock plain
        (rw (vector-pull_record p r one) (unseen-update_self p.db.vector r.updated_by r.clock)))
  becomes_seen p (r ∷ rs) x (one, plain) (inr h) =
      becomes_seen (pull_record ops lib now p r) rs x plain h

  pub pull_each-count :
      (p : Pulling ops lib now) (rs : List Record)
      → ((pull_each ops lib now p rs).ingested ≡ p.ingested + length rs)
        × ((pull_each ops lib now p rs).failure ≡ p.failure)
  unfolding pull_each
  pull_each-count p [] = (omega arith, refl)
  pull_each-count p (r ∷ rs) =
      let (clean, _, count) = pull_record-ok ops lib now p r succeeds in
      let (more, still) = pull_each-count (pull_record ops lib now p r) rs in
      (omega (arith, more, count), still ∙ clean)

  pub nothing_missing :
      (kv : KnowledgeVector) (all : List Record)
      → ((r : Record) → Has r all → unseen kv r.updated_by r.clock ≡ false)
      → filter (is_missing kv) all ≡ []
  unfolding is_missing
  nothing_missing kv [] h = refl
  nothing_missing kv (r ∷ rs) h = rw (h r (inl refl)) (nothing_missing kv rs (λ x g. h x (inr g)))

  -- After the missing records have been ingested, none of the list is unseen.
  pub none_unseen :
      (p : Pulling ops lib now) (all : List Record)
      → All IsPlain all
      → (r : Record) → Has r all
      → unseen
          (pull_each ops lib now p (filter (is_missing p.db.vector) all)).db.vector
          r.updated_by
          r.clock
        ≡ false
  unfolding is_missing
  none_unseen p all plain r h =
      let kv = p.db.vector in
      let rs = filter (is_missing kv) all in
      let plain_rs = All-filter (is_missing kv) IsPlain all plain in
      elim (Bool-cases (unseen kv r.updated_by r.clock)) [
        | inl t ↦ becomes_seen p rs r plain_rs (Has-filter (is_missing kv) r all h t)
        | inr t ↦ stays_seen p rs r.updated_by r.clock plain_rs t
      ]
