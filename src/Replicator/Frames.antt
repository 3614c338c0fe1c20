-- ===== src/Replicator/Frames.antt =====
-- The loop of `pull` in sdk/replicate.go on the frames that a server sends.
use nell_db.Base.{
  ℕ, zero, suc, ◌+◌, ◌%◌, ◌^◌, ◌<◌, ◌≡◌, refl, ap, ◌∙◌, Bool, false, none, List, [], ◌∷◌, ◌++◌, All,
  length, arith, le→ltb, length-append, append_assoc, append-nil, take-append, drop-append,
  Bool-cases, inl, inr, ◌==◌,
}
use nell_db.Base.Int.{ℤ}
use nell_db.Base.Bytes.{Bytes, put_be, get_be, length-put_be, get_be-put_be}
use nell_db.Base.Result.{Result, ok, err}
use nell_db.Hlc.Codec.{take-append_at, drop-append_at}
use nell_db.Record.{Record, marshal_binary}
use nell_db.Record.Codec.{unmarshal_binary-marshal_binary}
use nell_db.Server.{wire_frame}
use nell_db.Server.Binary.{Sendable, wire, wire_frame-length}
use nell_db.Doc.{Library, is_internal_id}
use nell_db.DocDb.Engine.{Store, StoreError}
use nell_db.DocDb.{DocDb, DocError, put_in}
use nell_db.DocDb.Ingest.{ingest_remote, finish_ingest}
use nell_db.Replicator.{
  Pulling, pull_record, pull_decoded, pull_frames, after_ingest, unless_failed, write_frames,
}

pub write_frames-wire : (rs : List Record) → write_frames rs ≡ wire rs
unfolding write_frames wire
write_frames-wire [] = refl
write_frames-wire (r ∷ rs) = ap (λ b. wire_frame r ++ b) (write_frames-wire rs)

-- An engine whose `Put` reports no error, as the in-memory store's does.
unfoldable pub Succeeds : {S : Type 0} → Store S → Type 0
Succeeds {S} ops = (s : S) (r : Record) → (res : Bool × Record) × ((ops.put s r).1 ≡ ok res)

module _ {S : Type 0} (ops : Store S) (lib : Library) (now : ℕ → ℤ) where
  -- The records of the frames, ingested one by one.
  unfoldable pub pull_each : Pulling ops lib now → List Record → Pulling ops lib now
  pull_each p [] = p
  pull_each p (r ∷ rs) = pull_each (pull_record ops lib now p r) rs

  finish_ingest-ok :
      (d : DocDb S) (rec : Record) (o : Result StoreError (Bool × Record)) (res : Bool × Record)
      → o ≡ ok res
      → (finish_ingest ops lib now d rec o).1 ≡ ok tt
  unfolding finish_ingest
  finish_ingest-ok d rec (ok r) res e = refl
  finish_ingest-ok d rec (err x) res e = absurd (cc)

  pub ingest_remote-ok :
      (rec : Record) (d : DocDb S) → Succeeds ops → (ingest_remote ops lib now rec d).1 ≡ ok tt
  unfolding ingest_remote put_in Succeeds
  ingest_remote-ok rec d succeeds =
      let (res, stored) = succeeds d.store rec in
      let fine = finish_ingest-ok (record d { store = (ops.put d.store rec).0 }) rec _ res stored in
      elim (Bool-cases (is_internal_id rec.id)) [ inl t ↦ rw t refl | inr t ↦ rw t fine ]

  after_ingest-ok :
      (p : Pulling ops lib now) (rec : Record) (x : DocDb S × Result DocError (Unit {0}))
      → x.1 ≡ ok tt
      → ((after_ingest ops lib now p rec x).failure ≡ p.failure)
        × ((after_ingest ops lib now p rec x).db ≡ x.0)
        × ((after_ingest ops lib now p rec x).ingested ≡ p.ingested + 1)
  unfolding after_ingest
  after_ingest-ok p rec (d, ok u) h = (refl, refl, refl)
  after_ingest-ok p rec (d, err e) h = absurd (cc)

  pub pull_record-ok :
      (p : Pulling ops lib now) (rec : Record)
      → Succeeds ops
      → ((pull_record ops lib now p rec).failure ≡ p.failure)
        × ((pull_record ops lib now p rec).db ≡ (ingest_remote ops lib now rec p.db).0)
        × ((pull_record ops lib now p rec).ingested ≡ p.ingested + 1)
  unfolding pull_record
  pull_record-ok p rec succeeds =
      after_ingest-ok p rec (ingest_remote ops lib now rec p.db)
        (ingest_remote-ok rec p.db succeeds)

  pull_frames-frame :
      (fuel : ℕ) (p : Pulling ops lib now) (r : Record) (t : Bytes)
      → Sendable r
      → Succeeds ops
      → p.failure ≡ none
      → pull_frames ops lib now (suc fuel) p (wire_frame r ++ t)
        ≡ pull_frames ops lib now fuel (pull_record ops lib now p r) t
  unfolding pull_frames wire_frame pull_decoded unless_failed
  pull_frames-frame fuel p r t s succeeds clean =
      rw
        (
          append_assoc head raw t,
          take-append_at 4 head (raw ++ t) (length-put_be 4 _),
          drop-append_at 4 head (raw ++ t) (length-put_be 4 _),
          word,
          take-append raw t,
          drop-append raw t,
          some_bytes,
          le→ltb (length (head ++ (raw ++ t))) 4
              (omega (arith, length-append head (raw ++ t), length-put_be 4 (length raw % 2 ^ 32))),
          le→ltb (length (raw ++ t)) (length raw) (omega (arith, length-append raw t)),
          rw append-nil at (unmarshal_binary-marshal_binary r [] s.encodable),
          (pull_record-ok p r succeeds).0,
          clean,
        )
        refl
    where
      raw : Bytes
      raw = marshal_binary r

      head : Bytes
      head = put_be 4 (length raw % 2 ^ 32)

      word : get_be head ≡ length raw
      word = get_be-put_be 4 (length raw % 2 ^ 32) (omega arith) ∙ omega (arith, s.fits)

      some_bytes : (length (head ++ (raw ++ t)) == 0) ≡ false
      some_bytes =
          ground (arith, length-append head (raw ++ t), length-put_be 4 (length raw % 2 ^ 32))

  -- The loop of `pull` ingests the records of the frames one by one.
  pub pull_frames-wire :
      (fuel : ℕ) (p : Pulling ops lib now) (rs : List Record)
      → All Sendable rs
      → Succeeds ops
      → p.failure ≡ none
      → length (wire rs) < fuel
      → pull_frames ops lib now fuel p (wire rs) ≡ pull_each p rs
  unfolding pull_each wire
  pull_frames-wire zero p rs w succeeds clean h = absurd (omega arith)
  pull_frames-wire (suc fuel) p [] w succeeds clean h = unfold pull_frames in refl
  pull_frames-wire (suc fuel) p (r ∷ rs) (w, ws) succeeds clean h =
      pull_frames-frame fuel p r (wire rs) w succeeds clean
      ∙ pull_frames-wire fuel (pull_record ops lib now p r) rs ws succeeds
          ((pull_record-ok p r succeeds).0 ∙ clean)
          (omega (arith, length-append (wire_frame r) (wire rs), wire_frame-length r, h))
