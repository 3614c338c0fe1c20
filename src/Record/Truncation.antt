-- ===== src/Record/Truncation.antt =====
-- `UnmarshalBinary` on a binary form that is cut short or that `MarshalBinary` could not write whole.
use nell_db.Base.{
  ℕ, ◌+◌, ◌%◌, ◌^◌, ◌<◌, ◌≤◌, ◌≡◌, ◌≢◌, refl, ap, ◌∙◌, ◌++◌, [], ◌∷◌, length, take, drop,
  length-append, append-nil, arith, le→ltb, take-append_le, drop-append_le, length-take_le,
  length-drop, take-append-drop,
}
use nell_db.Base.Bytes.{Bytes, put_be, length-put_be}
use nell_db.Base.Result.{ok}
use nell_db.Hlc.{decode_binary}
use nell_db.Hlc.Codec.{length-encode_binary}
use nell_db.Record.{
  Record, put_string, marshal_binary, unmarshal_body, encoded_size, deleted_flag, unmarshal_binary,
}
use nell_db.Record.Codec.{Encodable, unmarshal_binary-marshal_binary, length-put_vector}
use nell_db.Record.Bounds.{unmarshal_body-Reads, Reads-body, Reads-append, Reads-size}

length-put_string : (s : Bytes) → length (put_string s) ≡ 2 + length s
unfolding put_string
length-put_string s =
    length-append (put_be 2 (length s % 2 ^ 16)) s
    ∙ omega (arith, length-put_be 2 (length s % 2 ^ 16))

-- `MarshalBinary` fills the buffer that it allocates exactly, for every record.
pub length-marshal_binary : (r : Record) → length (marshal_binary r) ≡ encoded_size r
unfolding marshal_binary encoded_size
length-marshal_binary r =
    simp (length-append, length-encode_binary, length-put_string, length-put_be, length-put_vector)
      (omega arith)

unmarshal_binary-body :
    (b : Bytes) (r : Record)
    → unmarshal_binary b ≡ ok r
    → (14 ≤ length b)
      × (unmarshal_body (deleted_flag b) (decode_binary (take 12 (drop 2 b))) (drop 14 b) ≡ ok r)
unfolding unmarshal_binary
unmarshal_binary-body b r h = ground arith

-- A record that was decoded took no more bytes than there were: the size of its own binary form.
pub unmarshal_binary_size :
    (b : Bytes) (r : Record) → unmarshal_binary b ≡ ok r → encoded_size r ≤ length b
unmarshal_binary_size b r h =
    let (long, e) = unmarshal_binary-body b r h in
    let (left, reads, _, _) = unmarshal_body-Reads _ _ (drop 14 b) r e in
    omega (arith, Reads-size (drop 14 b) r left reads, length-drop 14 b)

deleted_flag-append : (b more : Bytes) → 2 ≤ length b → deleted_flag (b ++ more) ≡ deleted_flag b
unfolding deleted_flag
deleted_flag-append [] more h = absurd (omega arith)
deleted_flag-append (x ∷ []) more h = absurd (omega arith)
deleted_flag-append (x ∷ y ∷ b) more h = refl

header-append : (b more : Bytes) → 14 ≤ length b → take 12 (drop 2 (b ++ more)) ≡ take 12 (drop 2 b)
header-append b more h =
    rw (drop-append_le 2 b more (omega arith))
      (take-append_le 12 (drop 2 b) more (omega (arith, length-drop 2 b)))

-- A buffer that decodes to a record decodes to the same record when bytes are added behind it.
pub unmarshal_binary-append :
    (b more : Bytes) (r : Record) → unmarshal_binary b ≡ ok r → unmarshal_binary (b ++ more) ≡ ok r
unfolding unmarshal_binary
unmarshal_binary-append b more r h =
    let (long, e) = unmarshal_binary-body b r h in
    let (left, reads, hd, hc) = unmarshal_body-Reads _ _ (drop 14 b) r e in
    rw
      (
        le→ltb (length (b ++ more)) 14 (omega (arith, length-append b more)),
        deleted_flag-append b more (omega arith),
        header-append b more long,
        drop-append_le 14 b more long,
      )
      (Reads-body _ _ (drop 14 b ++ more) r (left ++ more)
        (Reads-append (drop 14 b) r left more reads) hd hc)

-- No proper prefix of the binary form of a record that fits it decodes: a frame that was cut short
-- is always refused with an error.
pub unmarshal_binary_truncated :
    (r x : Record) (n : ℕ)
    → Encodable r
    → n < length (marshal_binary r)
    → unmarshal_binary (take n (marshal_binary r)) ≢ ok x
unmarshal_binary_truncated r x n fits short h =
    let b = take n (marshal_binary r) in
    let more = drop n (marshal_binary r) in
    let whole : unmarshal_binary (marshal_binary r) ≡ ok x =
      rw (take-append-drop n (marshal_binary r)) at (unmarshal_binary-append b more x h) in
    let again : unmarshal_binary (marshal_binary r) ≡ ok r =
      rw append-nil at (unmarshal_binary-marshal_binary r [] fits) in
    let same : x ≡ r = cc in
    omega (
      arith,
      unmarshal_binary_size b x h,
      length-marshal_binary r,
      ap encoded_size same,
      length-take_le n (marshal_binary r) (omega arith),
    )
