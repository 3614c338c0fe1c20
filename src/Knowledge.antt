-- ===== src/Knowledge.antt =====
-- `KnowledgeVector` of store.go: the greatest clock seen from each node, and its binary form.
pub mod Laws
pub mod Codec
use nell_db.Base.{
  ℕ, zero, suc, ◌+◌, ◌%◌, ◌^◌, Bool, true, Option, none, some, [], ◌∷◌, ◌++◌, ltb, length, take,
  drop, if◌then◌else◌,
}
use nell_db.Base.Bytes.{Bytes, put_be, get_be}
use nell_db.Base.Map.{Map, lookup, insert}
use nell_db.Base.Result.{Result, ok, err}
use nell_db.Hlc.{Hlc, hlc_size, greater_than, encode_binary, decode_binary}

abbrev pub KnowledgeVector : Type 0
KnowledgeVector = Map Hlc

unfoldable pub update : KnowledgeVector → Bytes → Hlc → KnowledgeVector
update kv node_id clock = elim (lookup node_id kv) [
  | none ↦ insert node_id clock kv
  | some existing ↦ if greater_than clock existing then insert node_id clock kv else kv
]

-- `!ok || clock.GreaterThan(seen)`, the test of the anti-entropy endpoints: whoever sent the vector
-- has not seen a record that `node_id` wrote at `clock`.
unfoldable pub newer_than : Hlc → Option Hlc → Bool
newer_than clock none = true
newer_than clock (some seen) = greater_than clock seen

unfoldable pub unseen : KnowledgeVector → Bytes → Hlc → Bool
unfolding newer_than
unseen kv node_id clock = newer_than clock (lookup node_id kv)

-- The loop over the entries.
unfoldable pub marshal_entries : KnowledgeVector → Bytes
marshal_entries [] = []
marshal_entries ((node_id, clock) ∷ kv) =
    put_be 2 (length node_id % 2 ^ 16) ++ (node_id ++ (encode_binary clock ++ marshal_entries kv))

unfoldable pub marshal_binary : KnowledgeVector → Bytes
marshal_binary kv = put_be 2 (length kv % 2 ^ 16) ++ marshal_entries kv

pub data KvError : Type 0 where
  too_short : KvError
  truncated_entry : KvError
  truncated_data : KvError

-- The loop `for i := range count`, over the bytes from `off` on. The entries read before an error
-- stay in the caller's map, which every caller drops.
unfoldable pub unmarshal_entries : ℕ → KnowledgeVector → Bytes → Result KvError KnowledgeVector
unmarshal_entries zero kv b = ok kv
unmarshal_entries (suc count) kv b =
    let id_len = get_be (take 2 b) in
    let rest = drop 2 b in
    let clock = decode_binary (take hlc_size (drop id_len rest)) in
    let more =
      unmarshal_entries count (insert (take id_len rest) clock kv)
        (drop (id_len + hlc_size) rest) in
    if ltb (length b) 2
    then err truncated_entry
    else if ltb (length rest) (id_len + hlc_size)
    then err truncated_data
    else more

unfoldable pub unmarshal_binary : KnowledgeVector → Bytes → Result KvError KnowledgeVector
unmarshal_binary kv b =
    if ltb (length b) 2 then err too_short else unmarshal_entries (get_be (take 2 b)) kv (drop 2 b)
