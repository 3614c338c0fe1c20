-- ===== src/Doc.antt =====
-- The documents of the client package: sdk/doc.go, sdk/rev.go and the helpers of sdk/docdb.go that
-- take a document apart and rebuild it. A document is a Go map from field names to JSON-like values. What
-- encoding/json, crypto/sha1 and strconv do are the parameters of `Library`.
pub mod Rev
pub mod Feed
pub mod Body
pub mod Changes
use nell_db.Base.{
  ℕ, zero, suc, ltb, length, take, ◌+◌, ◌-◌, ◌^◌, Bool, true, false, Option, none, some, List, [],
  ◌∷◌, ◌++◌, ◌==◌, ◌&&◌, ◌||◌, not, if◌then◌else◌,
}
use nell_db.Base.Int.{ℤ, pos, negsuc, ltb_ℤ}
use nell_db.Base.Bytes.{Bytes, eqb, lt_bytes}
use nell_db.Base.Map.{Map, lookup, insert}
use nell_db.Hlc.{Hlc}
use nell_db.Knowledge.{KnowledgeVector}
use nell_db.Record.{Record}

-- The dynamic types that a field's value can have: those of decoded JSON, `[]byte` and `[]float32`. A float
-- is its bit pattern.
mutual
  pub data Value : Type 0 where
    null : Value
    flag : Bool → Value
    number : ℕ → Value
    text : Bytes → Value
    bytes : Bytes → Value
    floats : List ℕ → Value
    items : Values → Value
    object : Fields → Value

  pub data Values : Type 0 where
    no_values : Values
    more_values : Value → Values → Values

  pub data Fields : Type 0 where
    no_fields : Fields
    more_fields : Bytes → Value → Fields → Fields

abbrev pub Doc : Type 0
Doc = Map Value

pub record Library : Type 0 where
  pub marshal : Doc → Option Bytes
  pub unmarshal : Bytes → Option Doc
  pub marshal_clock : Hlc → Option Bytes
  pub unmarshal_clock : Bytes → Option Hlc
  pub marshal_vector : KnowledgeVector → Option Bytes
  pub unmarshal_vector : Bytes → Option KnowledgeVector
  pub sha1_hex : Bytes → Bytes
  pub print : ℤ → Bytes
  pub parse : Bytes → ℤ × Bool
  pub narrow : ℕ → ℕ

-- "_id", "_rev", "_deleted", "_type" and "_vector"
abbrev pub field_id : Bytes
field_id = 95 ∷ 105 ∷ 100 ∷ []

abbrev pub field_rev : Bytes
field_rev = 95 ∷ 114 ∷ 101 ∷ 118 ∷ []

abbrev pub field_deleted : Bytes
field_deleted = 95 ∷ 100 ∷ 101 ∷ 108 ∷ 101 ∷ 116 ∷ 101 ∷ 100 ∷ []

abbrev pub field_type : Bytes
field_type = 95 ∷ 116 ∷ 121 ∷ 112 ∷ 101 ∷ []

abbrev pub field_vector : Bytes
field_vector = 95 ∷ 118 ∷ 101 ∷ 99 ∷ 116 ∷ 111 ∷ 114 ∷ []

-- "_payload_b64"
abbrev pub field_payload : Bytes
field_payload = 95 ∷ 112 ∷ 97 ∷ 121 ∷ 108 ∷ 111 ∷ 97 ∷ 100 ∷ 95 ∷ 98 ∷ 54 ∷ 52 ∷ []

-- "text", `TypeText`
abbrev pub type_text : Bytes
type_text = 116 ∷ 101 ∷ 120 ∷ 116 ∷ []

-- "1-imported" and "1-remote"
abbrev pub rev_imported : Bytes
rev_imported = 49 ∷ 45 ∷ 105 ∷ 109 ∷ 112 ∷ 111 ∷ 114 ∷ 116 ∷ 101 ∷ 100 ∷ []

abbrev pub rev_remote : Bytes
rev_remote = 49 ∷ 45 ∷ 114 ∷ 101 ∷ 109 ∷ 111 ∷ 116 ∷ 101 ∷ []

unfoldable pub is_empty : Bytes → Bool
is_empty [] = true
is_empty (b ∷ bs) = false

-- `v, ok := doc[field].(string)`
unfoldable pub as_text : Option Value → Option Bytes
as_text (some (text s)) = some s
as_text _ = none

unfoldable pub text_field : Bytes → Doc → Option Bytes
unfolding as_text
text_field field doc = as_text (lookup field doc)

-- `v, _ := doc[field].(string)`: the empty string for a missing field.
unfoldable pub or_empty : Option Bytes → Bytes
or_empty none = []
or_empty (some s) = s

unfoldable pub or_else : Option Bytes → Bytes → Bytes
or_else none s = s
or_else (some r) s = r

unfoldable pub as_flag : Option Value → Bool
as_flag (some (flag b)) = b
as_flag _ = false

unfoldable pub is_deleted : Doc → Bool
is_deleted doc = as_flag (lookup field_deleted doc)

unfoldable pub is_reserved : Bytes → Bool
is_reserved k = eqb k field_id || eqb k field_deleted || eqb k field_type || eqb k field_vector

-- `splitDoc`
unfoldable pub split_doc : Doc → Doc
split_doc [] = []
split_doc ((k, v) ∷ doc) = let rest = split_doc doc in if is_reserved k then rest else (k, v) ∷ rest

-- The loop of `Put` over a decoded array: what is no float64 leaves a zero.
unfoldable pub narrow_item : (ℕ → ℕ) → Value → ℕ
narrow_item narrow (number f) = narrow f
narrow_item narrow _ = 0

unfoldable pub narrow_items : (ℕ → ℕ) → Values → List ℕ
narrow_items narrow no_values = []
narrow_items narrow (more_values v vs) = narrow_item narrow v ∷ narrow_items narrow vs

unfoldable pub as_vector : (ℕ → ℕ) → Option Value → List ℕ
as_vector narrow (some (floats vec)) = vec
as_vector narrow (some (items vs)) = narrow_items narrow vs
as_vector narrow _ = []

-- `maps.Copy(out, body)`
unfoldable pub copy : Doc → Doc → Doc
copy out [] = out
copy out ((k, v) ∷ body) = copy (insert k v out) body

-- The field of a record's type, and that of its vector.
unfoldable pub with_type : Bytes → Doc → Doc
with_type type out =
    if is_empty type || eqb type type_text then out else insert field_type (text type) out

unfoldable pub with_vector : List ℕ → Doc → Doc
with_vector [] out = out
with_vector (v ∷ vs) out = insert field_vector (floats (v ∷ vs)) out

keep_rev : Doc → Option Bytes → Doc
keep_rev out none = insert field_rev (text rev_imported) out
keep_rev out (some rev) = out

unfoldable pub with_rev : Doc → Doc
unfolding keep_rev
with_rev out = keep_rev out (text_field field_rev out)

-- A payload that is no JSON object becomes a `[]byte` field.
unfoldable pub with_body : Doc → Bytes → Option Doc → Doc
with_body out payload none = insert field_payload (bytes payload) out
with_body out payload (some body) = with_rev (copy out body)

-- `joinDoc`
unfoldable pub join_doc : Library → Bytes → Record → Doc
join_doc lib id rec =
    let out = with_vector rec.vector (with_type rec.type ((field_id, text id) ∷ [])) in
    if is_empty rec.payload then out else with_body out rec.payload (lib.unmarshal rec.payload)

-- `readRev`
unfoldable pub rev_of : Option Doc → Option Bytes
rev_of none = none
rev_of (some body) = text_field field_rev body

unfoldable pub read_rev : Library → Record → Option Bytes
read_rev lib rec = if is_empty rec.payload then none else rev_of (lib.unmarshal rec.payload)

-- `strings.SplitN(rev, "-", 2)[0]`
unfoldable pub before_dash : Bytes → Bytes
before_dash [] = []
before_dash (b ∷ bs) = let rest = before_dash bs in if b == 45 then [] else b ∷ rest

-- `g + 1` on Go's 64-bit int.
unfoldable pub inc_int : ℤ → ℤ
inc_int (pos n) = if n == 2 ^ 63 - 1 then negsuc (2 ^ 63 - 1) else pos (n + 1)
inc_int (negsuc zero) = pos 0
inc_int (negsuc (suc n)) = negsuc n

-- The generation that follows that of `prev`.
unfoldable pub next_gen : Library → Bytes → ℤ
next_gen lib prev =
    let (g, good) = lib.parse (before_dash prev) in
    if is_empty prev then pos 1 else if good && ltb_ℤ (pos 0) g then inc_int g else pos 1

unfoldable pub gen_rev : Library → Bytes → Bytes → Bytes
gen_rev lib prev body = lib.print (next_gen lib prev) ++ (45 ∷ lib.sha1_hex body)

unfoldable pub parse_gen : Library → Bytes → ℤ
parse_gen lib rev = if is_empty rev then pos 0 else (lib.parse (before_dash rev)).0

-- `keyInRange`
unfoldable pub key_in_range : Bytes → Bytes → Bytes → Bool → Bool
key_in_range key start end inclusive_end =
    if not (is_empty start) && lt_bytes key start
    then false
    else if is_empty end
    then true
    else if inclusive_end
    then not (lt_bytes end key)
    else lt_bytes key end

-- "meta:"
abbrev pub meta_prefix : Bytes
meta_prefix = 109 ∷ 101 ∷ 116 ∷ 97 ∷ 58 ∷ []

unfoldable pub is_internal_id : Bytes → Bool
is_internal_id id = not (ltb (length id) 5) && eqb (take 5 id) meta_prefix
