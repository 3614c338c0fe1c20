-- ===== src/Record/Bounds.antt =====
-- How many bytes `UnmarshalBinary` takes from a buffer, by the reads that it makes.
use nell_db.Base.{
  ℕ, zero, suc, ◌+◌, ◌*◌, ◌≤◌, ◌≡◌, refl, sym, ap, ◌∙◌, ◌++◌, Bool, length, take, drop,
  length-append, arith, take-append_le, drop-append_le, length-take_le, length-drop,
}
use nell_db.Base.Bytes.{Bytes, get_be}
use nell_db.Base.Result.{ok, >>=-cases}
use nell_db.Hlc.{Hlc}
use nell_db.Record.{Record, take_block, get_vector, unmarshal_body, encoded_size, Part}

-- What a successful read of one block says of its input.
pub record Took (part : Part) (k w : ℕ) (b : Bytes) (n : ℕ) (xs rest : Bytes) : Type 0 where
  pub room : k ≤ length b
  pub number : n ≡ get_be (take k b)
  pub full : n * w ≤ length (drop k b)
  pub block : xs ≡ take (n * w) (drop k b)
  pub left : rest ≡ drop (n * w) (drop k b)

pub take_block-Took :
    (part : Part) (k w : ℕ) (b : Bytes) (n : ℕ) (xs rest : Bytes)
    → take_block part k w b ≡ ok (n, xs, rest)
    → Took part k w b n xs rest
unfolding take_block
take_block-Took part k w b n xs rest h = ground arith

Took-take_block :
    (part : Part) (k w : ℕ) (b : Bytes) (n : ℕ) (xs rest : Bytes)
    → Took part k w b n xs rest
    → take_block part k w b ≡ ok (n, xs, rest)
unfolding take_block
Took-take_block part k w b n xs rest t = ground arith

Took-append :
    (part : Part) (k w : ℕ) (b : Bytes) (n : ℕ) (xs rest more : Bytes)
    → Took part k w b n xs rest
    → Took part k w (b ++ more) n xs (rest ++ more)
Took-append part k w b n xs rest more t = record {
  room = omega (arith, length-append b more, t.room);
  number = t.number ∙ ap get_be (sym (take-append_le k b more t.room));
  full = rw (drop-append_le k b more t.room) (omega (arith, length-append (drop k b) more, t.full));
  block =
      rw (drop-append_le k b more t.room, take-append_le (n * w) (drop k b) more t.full) t.block;
  left =
      rw (drop-append_le k b more t.room, drop-append_le (n * w) (drop k b) more t.full)
        (ap (λ (z : Bytes). z ++ more) t.left);
}

Took-size :
    (part : Part) (k w : ℕ) (b : Bytes) (n : ℕ) (xs rest : Bytes)
    → Took part k w b n xs rest
    → (length b ≡ k + n * w + length rest) × (length xs ≡ n * w)
Took-size part k w b n xs rest t = (
  omega (arith, t.room, t.full, length-drop k b, length-drop (n * w) (drop k b), ap length t.left),
  ap length t.block ∙ length-take_le (n * w) (drop k b) t.full,
)

-- The six reads of a successful `UnmarshalBinary`, from the buffer behind the clock to what is left.
pub record Reads (b : Bytes) (r : Record) (left : Bytes) : Type 0 where
  pub cn : ℕ
  pub idn : ℕ
  pub tn : ℕ
  pub un : ℕ
  pub vc : ℕ
  pub pn : ℕ
  pub vec : Bytes
  pub b₁ : Bytes
  pub b₂ : Bytes
  pub b₃ : Bytes
  pub b₄ : Bytes
  pub b₅ : Bytes
  pub read_collection : take_block Part.collection_part 2 1 b ≡ ok (cn, r.collection, b₁)
  pub read_id : take_block Part.id_part 2 1 b₁ ≡ ok (idn, r.id, b₂)
  pub read_type : take_block Part.type_part 2 1 b₂ ≡ ok (tn, r.type, b₃)
  pub read_updated_by : take_block Part.updated_by_part 2 1 b₃ ≡ ok (un, r.updated_by, b₄)
  pub read_vector : take_block Part.vector_part 4 4 b₄ ≡ ok (vc, vec, b₅)
  pub read_payload : take_block Part.payload_part 4 1 b₅ ≡ ok (pn, r.payload, left)
  pub words : r.vector ≡ get_vector vc vec

pub unmarshal_body-Reads :
    (d : Bool) (c : Hlc) (b : Bytes) (r : Record)
    → unmarshal_body d c b ≡ ok r
    → (left : Bytes) × Reads b r left × (r.deleted ≡ d) × (r.clock ≡ c)
unfolding unmarshal_body
unmarshal_body-Reads d c b r h = >>=-cases (take_block Part.collection_part 2 1 b) _ h λ s₁ e₁ h₁.
    >>=-cases (take_block Part.id_part 2 1 s₁.2) _ h₁ λ s₂ e₂ h₂.
      >>=-cases (take_block Part.type_part 2 1 s₂.2) _ h₂ λ s₃ e₃ h₃.
        >>=-cases (take_block Part.updated_by_part 2 1 s₃.2) _ h₃ λ s₄ e₄ h₄.
          >>=-cases (take_block Part.vector_part 4 4 s₄.2) _ h₄ λ s₅ e₅ h₅.
            >>=-cases (take_block Part.payload_part 4 1 s₅.2) _ h₅ λ s₆ e₆ h₆. (
              s₆.2,
              record {
                cn = s₁.0;
                idn = s₂.0;
                tn = s₃.0;
                un = s₄.0;
                vc = s₅.0;
                pn = s₆.0;
                vec = s₅.1;
                b₁ = s₁.2;
                b₂ = s₂.2;
                b₃ = s₃.2;
                b₄ = s₄.2;
                b₅ = s₅.2;
                read_collection = e₁ ∙ ground arith;
                read_id = e₂ ∙ ground arith;
                read_type = e₃ ∙ ground arith;
                read_updated_by = e₄ ∙ ground arith;
                read_vector = e₅;
                read_payload = e₆ ∙ ground arith;
                words = ground arith;
              },
              ground arith,
              ground arith,
            )

pub Reads-body :
    (d : Bool) (c : Hlc) (b : Bytes) (r : Record) (left : Bytes)
    → Reads b r left
    → r.deleted ≡ d
    → r.clock ≡ c
    → unmarshal_body d c b ≡ ok r
unfolding unmarshal_body
Reads-body d c b r left t hd hc =
    rw (t.read_collection, t.read_id, t.read_type, t.read_updated_by, t.read_vector, t.read_payload)
      (ground (arith, hd, hc, t.words))

take_block-append :
    (part : Part) (k w : ℕ) (b : Bytes) (n : ℕ) (xs rest more : Bytes)
    → take_block part k w b ≡ ok (n, xs, rest)
    → take_block part k w (b ++ more) ≡ ok (n, xs, rest ++ more)
take_block-append part k w b n xs rest more h =
    Took-take_block part k w (b ++ more) n xs (rest ++ more)
      (Took-append part k w b n xs rest more (take_block-Took part k w b n xs rest h))

pub Reads-append :
    (b : Bytes) (r : Record) (left more : Bytes)
    → Reads b r left
    → Reads (b ++ more) r (left ++ more)
Reads-append b r left more t = record {
  cn = t.cn;
  idn = t.idn;
  tn = t.tn;
  un = t.un;
  vc = t.vc;
  pn = t.pn;
  vec = t.vec;
  words = t.words;
  b₁ = t.b₁ ++ more;
  b₂ = t.b₂ ++ more;
  b₃ = t.b₃ ++ more;
  b₄ = t.b₄ ++ more;
  b₅ = t.b₅ ++ more;
  read_collection = take_block-append _ 2 1 b t.cn r.collection t.b₁ more t.read_collection;
  read_id = take_block-append _ 2 1 t.b₁ t.idn r.id t.b₂ more t.read_id;
  read_type = take_block-append _ 2 1 t.b₂ t.tn r.type t.b₃ more t.read_type;
  read_updated_by = take_block-append _ 2 1 t.b₃ t.un r.updated_by t.b₄ more t.read_updated_by;
  read_vector = take_block-append _ 4 4 t.b₄ t.vc t.vec t.b₅ more t.read_vector;
  read_payload = take_block-append _ 4 1 t.b₅ t.pn r.payload left more t.read_payload;
}

length-get_vector : (n : ℕ) (b : Bytes) → length (get_vector n b) ≡ n
unfolding get_vector
length-get_vector zero b = refl
length-get_vector (suc n) b = ap suc (length-get_vector n (drop 4 b))

pub block_size :
    (part : Part) (k w : ℕ) (b : Bytes) (n : ℕ) (xs rest : Bytes)
    → take_block part k w b ≡ ok (n, xs, rest)
    → (length b ≡ k + n * w + length rest) × (length xs ≡ n * w)
block_size part k w b n xs rest h =
    Took-size part k w b n xs rest (take_block-Took part k w b n xs rest h)

pub Reads-size :
    (b : Bytes) (r : Record) (left : Bytes)
    → Reads b r left
    → length b + 14 ≡ encoded_size r + length left
unfolding encoded_size
Reads-size b r left t = omega (
  arith,
  block_size _ 2 1 b t.cn r.collection t.b₁ t.read_collection,
  block_size _ 2 1 t.b₁ t.idn r.id t.b₂ t.read_id,
  block_size _ 2 1 t.b₂ t.tn r.type t.b₃ t.read_type,
  block_size _ 2 1 t.b₃ t.un r.updated_by t.b₄ t.read_updated_by,
  block_size _ 4 4 t.b₄ t.vc t.vec t.b₅ t.read_vector,
  block_size _ 4 1 t.b₅ t.pn r.payload left t.read_payload,
  ap length t.words,
  length-get_vector t.vc t.vec,
)
