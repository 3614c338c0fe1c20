-- ===== src/Record/Codec.antt =====
-- The round trip of a record through its binary form.
use nell_db.Base.{
  ℕ, ◌*◌, ◌%◌, ◌^◌, ◌<◌, ◌≤◌, ◌≡◌, refl, ◌∙◌, ◌++◌, List, [], ◌∷◌, Bool, true, false, length,
  length-append, append_assoc, append-nil, arith, le→ltb, All,
}
use nell_db.Base.Bytes.{Bytes, put_be, get_be-put_be, length-put_be}
use nell_db.Base.Result.{ok}
use nell_db.Hlc.{encode_binary, decode_binary}
use nell_db.Hlc.Codec.{
  FitsHlc, length-encode_binary, decode_binary-encode_binary, take-append_at, drop-append_at,
}
use nell_db.Record.{
  Record, put_string, put_vector, flag, marshal_binary, take_block, get_vector, unmarshal_body,
  deleted_flag, unmarshal_binary, Part,
}

-- What fits the binary form: names below 64 KiB, fewer than 2 ^ 32 elements and payload bytes,
-- words of 32 bits in the vector, and a clock of an int64 and an int32.
pub record Encodable (r : Record) : Type 0 where
  pub collection : length r.collection < 2 ^ 16
  pub id : length r.id < 2 ^ 16
  pub type : length r.type < 2 ^ 16
  pub updated_by : length r.updated_by < 2 ^ 16
  pub vector : length r.vector < 2 ^ 32
  pub words : All (λ v. v < 2 ^ 32) r.vector
  pub payload : length r.payload < 2 ^ 32
  pub clock : FitsHlc r.clock

pub take_block-put :
    (part : Part) (k w n : ℕ) (xs rest : Bytes)
    → n < 256 ^ k
    → length xs ≡ n * w
    → take_block part k w (put_be k n ++ (xs ++ rest)) ≡ ok (n, xs, rest)
unfolding take_block
take_block-put part k w n xs rest fits e = rw (
  le→ltb (length (put_be k n ++ (xs ++ rest))) k long,
  drop-append_at k (put_be k n) (xs ++ rest) (length-put_be k n),
  take-append_at k (put_be k n) (xs ++ rest) (length-put_be k n),
  get_be-put_be k n fits,
  le→ltb (length (xs ++ rest)) (n * w) full,
  take-append_at (n * w) xs rest e,
  drop-append_at (n * w) xs rest e,
)
  where
    long : k ≤ length (put_be k n ++ (xs ++ rest))
    long = omega (arith, length-append (put_be k n) (xs ++ rest), length-put_be k n)

    full : n * w ≤ length (xs ++ rest)
    full = omega (arith, length-append xs rest)

pub length-put_vector : (vs : List ℕ) → length (put_vector vs) ≡ length vs * 4
unfolding put_vector
length-put_vector [] = refl
length-put_vector (v ∷ vs) =
    length-append (put_be 4 v) (put_vector vs)
    ∙ omega (arith, length-put_be 4 v, length-put_vector vs)

get_vector-put_vector :
    (vs : List ℕ) → All (λ v. v < 2 ^ 32) vs → get_vector (length vs) (put_vector vs) ≡ vs
unfolding put_vector get_vector
get_vector-put_vector [] h = refl
get_vector-put_vector (v ∷ vs) h = rw (
  drop-append_at 4 (put_be 4 v) (put_vector vs) (length-put_be 4 v),
  take-append_at 4 (put_be 4 v) (put_vector vs) (length-put_be 4 v),
  get_be-put_be 4 v h.0,
  get_vector-put_vector vs h.1,
)

pub take_block-put_string :
    (part : Part) (s rest : Bytes)
    → length s < 2 ^ 16
    → take_block part 2 1 (put_string s ++ rest) ≡ ok (length s % 2 ^ 16, s, rest)
unfolding put_string
take_block-put_string part s rest fits =
    rw
      (append_assoc, take_block-put part 2 1 (length s % 2 ^ 16) s rest (omega arith) (omega arith))

-- What follows the clock in the binary form of `r`, with more bytes behind it.
abbrev pub body_tail : Record → Bytes → Bytes
body_tail r rest =
    put_string r.type
    ++ (put_string r.updated_by
        ++ (put_be 4 (length r.vector % 2 ^ 32)
            ++ (put_vector r.vector
                ++ (put_be 4 (length r.payload % 2 ^ 32) ++ (r.payload ++ rest)))))

abbrev pub body : Record → Bytes → Bytes
body r rest = put_string r.collection ++ (put_string r.id ++ body_tail r rest)

small : (n : ℕ) → n < 2 ^ 32 → n % 2 ^ 32 ≡ n
small n h = omega arith

unmarshal_body-body :
    (r : Record) (rest : Bytes)
    → Encodable r
    → unmarshal_body r.deleted r.clock (body r rest) ≡ ok r
unfolding unmarshal_body
unmarshal_body-body r rest e = rw (
  take_block-put_string Part.collection_part r.collection _ e.collection,
  take_block-put_string Part.id_part r.id _ e.id,
  take_block-put_string Part.type_part r.type _ e.type,
  take_block-put_string Part.updated_by_part r.updated_by _ e.updated_by,
  small (length r.vector) e.vector,
  small (length r.payload) e.payload,
  take_block-put Part.vector_part 4 4 (length r.vector) (put_vector r.vector) _ e.vector
      (length-put_vector r.vector),
  take_block-put Part.payload_part 4 1 (length r.payload) r.payload rest e.payload (omega arith),
  get_vector-put_vector r.vector e.words,
)

pub marshal_binary_parts :
    (r : Record) (rest : Bytes)
    → marshal_binary r ++ rest ≡ 1 ∷ flag r.deleted ∷ (encode_binary r.clock ++ body r rest)
unfolding marshal_binary
marshal_binary_parts r rest = simp append_assoc

flag_lem : (d : Bool) (b : Bytes) → deleted_flag (1 ∷ flag d ∷ b) ≡ d
unfolding flag deleted_flag
flag_lem true b = refl
flag_lem false b = refl

pub unmarshal_binary_head :
    (d : Bool) (c b : Bytes)
    → length c ≡ 12
    → unmarshal_binary (1 ∷ flag d ∷ (c ++ b)) ≡ unmarshal_body d (decode_binary c) b
unfolding unmarshal_binary
unmarshal_binary_head d c b e = rw (
  le→ltb (length (1 ∷ flag d ∷ (c ++ b))) 14 (omega (arith, length-append c b)),
  take-append_at 12 c b e,
  drop-append_at 12 c b e,
  flag_lem d (c ++ b),
)

-- Every record that fits the binary form is read back from it unchanged, whatever bytes follow.
pub unmarshal_binary-marshal_binary :
    (r : Record) (rest : Bytes) → Encodable r → unmarshal_binary (marshal_binary r ++ rest) ≡ ok r
unmarshal_binary-marshal_binary r rest e =
    rw
      (
        marshal_binary_parts r rest,
        unmarshal_binary_head r.deleted (encode_binary r.clock) (body r rest)
            (length-encode_binary r.clock),
        clock,
      )
      (unmarshal_body-body r rest e)
  where
    clock : decode_binary (encode_binary r.clock) ≡ r.clock
    clock = rw append-nil at (decode_binary-encode_binary r.clock [] e.clock)
