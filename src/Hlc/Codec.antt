-- ===== src/Hlc/Codec.antt =====
-- `HLC.EncodeBinary` and `HLC.DecodeBinary` of types.go.
use nell_db.Base.{
  ℕ, ◌≡◌, ◌∙◌, ◌++◌, length, take, drop, take-append, drop-append, length-append, append_assoc,
  arith,
}
use nell_db.Base.Int.{
  FitsInt32, FitsInt64, to_word, of_word, of_word-to_word_32, of_word-to_word_64, to_word_32-lt,
  to_word_64-lt,
}
use nell_db.Base.Bytes.{Bytes, put_be, get_be, get_be-put_be, length-put_be}
use nell_db.Hlc.{Hlc, encode_binary, decode_binary}

pub record FitsHlc (h : Hlc) : Type 0 where
  pub wall : FitsInt64 h.wall_time
  pub count : FitsInt32 h.counter

pub length-encode_binary : (h : Hlc) → length (encode_binary h) ≡ 12
unfolding encode_binary
length-encode_binary h =
    length-append (put_be 8 (to_word 64 h.wall_time)) (put_be 4 (to_word 32 h.counter))
    ∙ omega
        (arith, length-put_be 8 (to_word 64 h.wall_time), length-put_be 4 (to_word 32 h.counter))

-- A slice of fixed length at the front of a buffer.
pub take-append_at : (n : ℕ) (xs ys : Bytes) → length xs ≡ n → take n (xs ++ ys) ≡ xs
take-append_at n xs ys e = rw (← e) (take-append xs ys)

pub drop-append_at : (n : ℕ) (xs ys : Bytes) → length xs ≡ n → drop n (xs ++ ys) ≡ ys
drop-append_at n xs ys e = rw (← e) (drop-append xs ys)

decode_parts :
    (a b rest : Bytes)
    → length a ≡ 8
    → length b ≡ 4
    → decode_binary ((a ++ b) ++ rest)
      ≡ record { wall_time = of_word 64 (get_be a); counter = of_word 32 (get_be b) }
unfolding decode_binary
decode_parts a b rest ha hb = rw (
  append_assoc,
  take-append_at 8 a (b ++ rest) ha,
  drop-append_at 8 a (b ++ rest) ha,
  take-append_at 4 b rest hb,
)

-- Decoding the encoding of a clock gives the clock back, whatever bytes follow.
pub decode_binary-encode_binary :
    (h : Hlc) (rest : Bytes) → FitsHlc h → decode_binary (encode_binary h ++ rest) ≡ h
unfolding encode_binary
decode_binary-encode_binary h rest fits =
    decode_parts (put_be 8 (to_word 64 h.wall_time)) (put_be 4 (to_word 32 h.counter)) rest
      (length-put_be 8 _) (length-put_be 4 _)
    ∙ rw (
      get_be-put_be 8 (to_word 64 h.wall_time) (to_word_64-lt h.wall_time),
      get_be-put_be 4 (to_word 32 h.counter) (to_word_32-lt h.counter),
      of_word-to_word_64 h.wall_time fits.wall,
      of_word-to_word_32 h.counter fits.count,
    )
