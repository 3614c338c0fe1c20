-- ===== src/Record.antt =====
-- `Record` of types.go, and its binary form: `MarshalBinary` and `UnmarshalBinary`. A float32 of a
-- vector is its bit pattern, which is what the code writes. A decoder works on the bytes that it
-- has not read yet, `b[off:]`, and a failed one returns its error alone: every caller of
-- `UnmarshalBinary` drops the record that it was filling.
pub mod Codec
pub mod Bounds
pub mod Truncation
use nell_db.Base.{
  ℕ, zero, suc, ◌+◌, ◌*◌, ◌%◌, ◌^◌, Bool, true, false, List, [], ◌∷◌, ◌++◌, ltb, ◌==◌, length, take,
  drop, if◌then◌else◌,
}
use nell_db.Base.Bytes.{Bytes, put_be, get_be}
use nell_db.Base.Result.{Result, ok, err, ◌>>=◌}
use nell_db.Hlc.{Hlc, hlc_size, zero_hlc, encode_binary, decode_binary}

pub record Record : Type 0 where
  pub collection : Bytes
  pub id : Bytes
  pub type : Bytes
  pub payload : Bytes
  pub vector : List ℕ
  pub clock : Hlc
  pub updated_by : Bytes
  pub deleted : Bool

-- `Record{}`
abbrev pub zero_record : Record
zero_record = record {
  collection = [];
  id = [];
  type = [];
  payload = [];
  vector = [];
  clock = zero_hlc;
  updated_by = [];
  deleted = false;
}

-- A string behind its length as a uint16.
unfoldable pub put_string : Bytes → Bytes
put_string s = put_be 2 (length s % 2 ^ 16) ++ s

-- The loop over `r.Vector`.
unfoldable pub put_vector : List ℕ → Bytes
put_vector [] = []
put_vector (v ∷ vs) = put_be 4 v ++ put_vector vs

unfoldable pub flag : Bool → ℕ
flag d = if d then 1 else 0

-- The size of the buffer that `MarshalBinary` allocates.
unfoldable pub encoded_size : Record → ℕ
encoded_size r =
    1
    + 1
    + hlc_size
    + 2
    + length r.collection
    + 2
    + length r.id
    + 2
    + length r.type
    + 2
    + length r.updated_by
    + 4
    + length r.vector * 4
    + 4
    + length r.payload

unfoldable pub marshal_binary : Record → Bytes
marshal_binary r =
    (1 ∷ flag r.deleted ∷ [])
    ++ (encode_binary r.clock
        ++ (put_string r.collection
            ++ (put_string r.id
                ++ (put_string r.type
                    ++ (put_string r.updated_by
                        ++ (put_be 4 (length r.vector % 2 ^ 32)
                            ++ (put_vector r.vector
                                ++ (put_be 4 (length r.payload % 2 ^ 32) ++ r.payload))))))))

pub data Part : Type 0 where
  collection_part id_part type_part updated_by_part vector_part payload_part : Part

pub data DecodeError : Type 0 where
  too_short : DecodeError
  truncated_len : Part → DecodeError
  truncated_data : Part → DecodeError

-- `n` elements of `width` bytes each, behind their number as a word of `bytes` bytes.
unfoldable pub take_block : Part → ℕ → ℕ → Bytes → Result DecodeError (ℕ × Bytes × Bytes)
take_block part bytes width b =
    if ltb (length b) bytes
    then err (truncated_len part)
    else let n = get_be (take bytes b) in
      let rest = drop bytes b in
      if ltb (length rest) (n * width)
      then err (truncated_data part)
      else ok (n, take (n * width) rest, drop (n * width) rest)

-- The loop `for i := range vC` over the vector's bytes.
unfoldable pub get_vector : ℕ → Bytes → List ℕ
get_vector zero b = []
get_vector (suc n) b = get_be (take 4 b) ∷ get_vector n (drop 4 b)

unfoldable pub unmarshal_body : Bool → Hlc → Bytes → Result DecodeError Record
unmarshal_body deleted clock b₀ = do
  (cn, collection, b₁) ← take_block collection_part 2 1 b₀
  (idn, id, b₂) ← take_block id_part 2 1 b₁
  (tn, type, b₃) ← take_block type_part 2 1 b₂
  (un, updated_by, b₄) ← take_block updated_by_part 2 1 b₃
  (vc, vector, b₅) ← take_block vector_part 4 4 b₄
  (pn, payload, b₆) ← take_block payload_part 4 1 b₅
  ok (record {
    collection = collection;
    id = id;
    type = type;
    payload = payload;
    vector = get_vector vc vector;
    clock = clock;
    updated_by = updated_by;
    deleted = deleted;
  })

-- `b[1] == 1`
unfoldable pub deleted_flag : Bytes → Bool
deleted_flag (version ∷ d ∷ b) = d == 1
deleted_flag _ = false

unfoldable pub unmarshal_binary : Bytes → Result DecodeError Record
unmarshal_binary b =
    if ltb (length b) 14
    then err too_short
    else unmarshal_body (deleted_flag b) (decode_binary (take 12 (drop 2 b))) (drop 14 b)
