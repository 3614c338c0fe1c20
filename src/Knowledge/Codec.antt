-- ===== src/Knowledge/Codec.antt =====
-- The round trip of a knowledge vector through its binary form.
use nell_db.Base.{
  ℕ, suc, ◌+◌, ◌%◌, ◌^◌, ◌<◌, ◌≡◌, refl, sym, ap, ◌++◌, [], ◌∷◌, none, length, drop, arith,
  length-append, append_assoc, append-nil, le→ltb, All, Bool-cases, inl, inr, ◌≢◌, drop-append,
  take-append,
}
use nell_db.Base.Bytes.{Bytes, put_be, get_be-put_be, length-put_be, eqb, eqb→eq, eqb_refl}
use nell_db.Base.Map.{Map, lookup, insert, Distinct}
use nell_db.Base.Result.{ok}
use nell_db.Hlc.{Hlc, encode_binary, decode_binary}
use nell_db.Hlc.Codec.{
  FitsHlc, length-encode_binary, decode_binary-encode_binary, take-append_at, drop-append_at,
}
use nell_db.Knowledge.{
  KnowledgeVector, marshal_entries, marshal_binary, unmarshal_entries, unmarshal_binary,
}

-- An entry that fits the binary form.
abbrev pub FitsEntry : Bytes × Hlc → Type 0
FitsEntry e = (length e.0 < 2 ^ 16) × FitsHlc e.1

insert_absent :
    {V : Type 0} (k : Bytes) (v : V) (m : Map V)
    → lookup k m ≡ none
    → insert k v m ≡ m ++ ((k, v) ∷ [])
unfolding lookup insert
insert_absent k v [] h = refl
insert_absent k v ((j, w) ∷ m) h = ground (arith, insert_absent k v m)

lookup-append_ne_none :
    {V : Type 0} (k : Bytes) (v : V) (acc m : Map V) → lookup k (acc ++ ((k, v) ∷ m)) ≢ none
unfolding lookup
lookup-append_ne_none k v [] m = ground (arith, eqb_refl k)
lookup-append_ne_none k v ((j, w) ∷ acc) m = ground (arith, lookup-append_ne_none k v acc m)

lookup-append_head :
    {V : Type 0} (k : Bytes) (v : V) (acc m : Map V)
    → Distinct (acc ++ ((k, v) ∷ m))
    → lookup k acc ≡ none
unfolding lookup
lookup-append_head k v [] m d = refl
lookup-append_head k v ((j, w) ∷ acc) m (h, d) = elim (Bool-cases (eqb j k)) [
  | inl e ↦ absurd (lookup-append_ne_none k v acc m (rw (eqb→eq j k e) at h))
  | inr e ↦ rw e (lookup-append_head k v acc m d)
]

unmarshal_entries_step :
    (count : ℕ) (kv : KnowledgeVector) (id clk rest : Bytes)
    → length id < 2 ^ 16
    → length clk ≡ 12
    → unmarshal_entries (suc count) kv (put_be 2 (length id % 2 ^ 16) ++ (id ++ (clk ++ rest)))
      ≡ unmarshal_entries count (insert id (decode_binary clk) kv) rest
unfolding unmarshal_entries
unmarshal_entries_step count kv id clk rest fits e = rw (
  le→ltb (length (put_be 2 (length id % 2 ^ 16) ++ (id ++ (clk ++ rest)))) 2 (
      omega (
        arith,
        length-append (put_be 2 (length id % 2 ^ 16)) (id ++ (clk ++ rest)),
        length-put_be 2 (length id % 2 ^ 16),
      )),
  take-append_at 2 (put_be 2 (length id % 2 ^ 16)) (id ++ (clk ++ rest)) (length-put_be 2 _),
  drop-append_at 2 (put_be 2 (length id % 2 ^ 16)) (id ++ (clk ++ rest)) (length-put_be 2 _),
  get_be-put_be 2 (length id % 2 ^ 16) (omega arith),
  small,
  take-append id (clk ++ rest),
  drop-append id (clk ++ rest),
  take-append_at 12 clk rest e,
  all_gone,
  le→ltb (length (id ++ (clk ++ rest))) (length id + 12)
      (omega (arith, e, length-append id (clk ++ rest), length-append clk rest)),
)
  where
    small : length id % 2 ^ 16 ≡ length id
    small = omega arith

    all_gone : drop (length id + 12) (id ++ (clk ++ rest)) ≡ rest
    all_gone =
        rw (← append_assoc) (
          drop-append_at (length id + 12) (id ++ clk) rest (omega (arith, e, length-append id clk)))

unmarshal_entries-marshal_entries :
    (kv acc : KnowledgeVector) (rest : Bytes)
    → Distinct (acc ++ kv)
    → All FitsEntry kv
    → unmarshal_entries (length kv) acc (marshal_entries kv ++ rest) ≡ ok (acc ++ kv)
unfolding marshal_entries
unmarshal_entries-marshal_entries [] acc rest d f =
    unfold unmarshal_entries in ap ok (sym (append-nil acc))
unmarshal_entries-marshal_entries ((n, c) ∷ kv) acc rest d f = rw (
  append_assoc,
  append_assoc,
  append_assoc,
  unmarshal_entries_step (length kv) acc n (encode_binary c) (marshal_entries kv ++ rest) f.0.0
      (length-encode_binary c),
  rw append-nil at (decode_binary-encode_binary c [] f.0.1),
  insert_absent n c acc (lookup-append_head n c acc kv d),
  unmarshal_entries-marshal_entries kv (acc ++ ((n, c) ∷ [])) rest (rw append_assoc d) f.1,
  append_assoc,
)

-- A knowledge vector of fewer than 2 ^ 16 nodes, whose names are shorter than 2 ^ 16 bytes and whose
-- clocks are of an int64 and an int32, is read back from its binary form into an empty map, whatever
-- bytes follow.
pub unmarshal_binary-marshal_binary_kv :
    (kv : KnowledgeVector) (rest : Bytes)
    → Distinct kv
    → All FitsEntry kv
    → length kv < 2 ^ 16
    → unmarshal_binary [] (marshal_binary kv ++ rest) ≡ ok kv
unfolding unmarshal_binary marshal_binary
unmarshal_binary-marshal_binary_kv kv rest d f few =
    rw
      (
        append_assoc,
        le→ltb (length (put_be 2 (length kv % 2 ^ 16) ++ (marshal_entries kv ++ rest))) 2 (
            omega (
              arith,
              length-put_be 2 (length kv % 2 ^ 16),
              length-append (put_be 2 (length kv % 2 ^ 16)) (marshal_entries kv ++ rest),
            )),
        take-append_at 2 (put_be 2 (length kv % 2 ^ 16)) (marshal_entries kv ++ rest)
            (length-put_be 2 _),
        drop-append_at 2 (put_be 2 (length kv % 2 ^ 16)) (marshal_entries kv ++ rest)
            (length-put_be 2 _),
        get_be-put_be 2 (length kv % 2 ^ 16) (omega arith),
        small,
      )
      (unmarshal_entries-marshal_entries kv [] rest d f)
  where
    small : length kv % 2 ^ 16 ≡ length kv
    small = omega arith
