-- ===== src/Server/Binary.antt =====
-- The frames that `handleBinCheck` of server/main.go sends are those that `handleBinPush` reads.
use nell_db.Base.{
  ℕ, zero, suc, ◌%◌, ◌^◌, ◌<◌, ◌≤◌, ◌≡◌, refl, ap, ◌∙◌, List, [], ◌∷◌, ◌++◌, All, length, filter,
  arith, le→ltb, length-append, append_assoc, append-nil, take-append, drop-append, Bool-cases, inl,
  inr,
}
use nell_db.Base.Bytes.{Bytes, put_be, get_be, length-put_be, get_be-put_be}
use nell_db.Hlc.Codec.{take-append_at, drop-append_at}
use nell_db.Record.{Record, marshal_binary}
use nell_db.Record.Codec.{Encodable, unmarshal_binary-marshal_binary}
use nell_db.Knowledge.{KnowledgeVector, unseen}
use nell_db.Server.{
  Store, Pushed, wire_frame, is_missing, stream_missing, push_record, push_records, push_decoded,
  push_frames,
}

-- A record that fits a frame of the wire.
pub record Sendable (r : Record) : Type 0 where
  pub encodable : Encodable r
  pub fits : length (marshal_binary r) < 2 ^ 32

unfoldable pub wire : List Record → Bytes
wire [] = []
wire (r ∷ rs) = wire_frame r ++ wire rs

pub stream_missing-wire :
    (kv : KnowledgeVector) (rs : List Record)
    → stream_missing kv rs ≡ wire (filter (is_missing kv) rs)
unfolding stream_missing wire is_missing
stream_missing-wire kv [] = refl
stream_missing-wire kv (r ∷ rs) = elim (Bool-cases (unseen kv r.updated_by r.clock)) [
  | inl e ↦ rw e (ap (λ b. wire_frame r ++ b) (stream_missing-wire kv rs))
  | inr e ↦ rw e (stream_missing-wire kv rs)
]

pub wire_frame-length : (r : Record) → 4 ≤ length (wire_frame r)
unfolding wire_frame
wire_frame-length r = omega (
  arith,
  length-append (put_be 4 (length (marshal_binary r) % 2 ^ 32)) (marshal_binary r),
  length-put_be 4 (length (marshal_binary r) % 2 ^ 32),
)

module _ {S : Type 0} (ops : Store S) where
  push_frames-frame :
      (fuel : ℕ) (p : Pushed ops) (r : Record) (t : Bytes)
      → Sendable r
      → push_frames ops (suc fuel) p (wire_frame r ++ t)
        ≡ push_frames ops fuel (push_record ops p r) t
  unfolding push_frames wire_frame push_decoded
  push_frames-frame fuel p r t s =
      rw
        (
          append_assoc head raw t,
          take-append_at 4 head (raw ++ t) (length-put_be 4 _),
          drop-append_at 4 head (raw ++ t) (length-put_be 4 _),
          word,
          take-append raw t,
          drop-append raw t,
          le→ltb (length (head ++ (raw ++ t))) 4
              (omega (arith, length-append head (raw ++ t), length-put_be 4 (length raw % 2 ^ 32))),
          le→ltb (length (raw ++ t)) (length raw) (omega (arith, length-append raw t)),
          rw append-nil at (unmarshal_binary-marshal_binary r [] s.encodable),
        )
        refl
    where
      raw : Bytes
      raw = marshal_binary r

      head : Bytes
      head = put_be 4 (length raw % 2 ^ 32)

      word : get_be head ≡ length raw
      word = get_be-put_be 4 (length raw % 2 ^ 32) (omega arith) ∙ omega (arith, s.fits)

  -- The loop of `handleBinPush` puts the records of the frames one by one.
  pub push_frames-wire :
      (fuel : ℕ) (p : Pushed ops) (rs : List Record)
      → All Sendable rs
      → length (wire rs) < fuel
      → push_frames ops fuel p (wire rs) ≡ push_records ops p rs
  unfolding push_records wire
  push_frames-wire zero p rs w h = absurd (omega arith)
  push_frames-wire (suc fuel) p [] w h = unfold push_frames in refl
  push_frames-wire (suc fuel) p (r ∷ rs) (w, ws) h =
      push_frames-frame fuel p r (wire rs) w
      ∙ push_frames-wire fuel (push_record ops p r) rs ws
          (omega (arith, length-append (wire_frame r) (wire rs), wire_frame-length r, h))
