-- ===== src/Tests/Codecs.antt =====
-- The clock and the binary forms.
use nell_db.Base.{
  ◌≤◌, ◌≡◌, ◌≢◌, refl, true, [], ◌∷◌, ◌++◌, ◌&&◌, ◌||◌, not, length, take, append-nil, arith, zero,
  suc, ap, ℕ, List,
}
use nell_db.Base.Int.{pos, negsuc, pos_part, to_word, ltb_ℤ, eqb_ℤ}
use nell_db.Base.Bytes.{eqb, put_be}
use nell_db.Base.Map.{lookup}
use nell_db.Base.Result.{ok}
use nell_db.Hlc.{zero_hlc, tick, update, greater_than, encode_binary, decode_binary, inc_int32}
use nell_db.Hlc.Clock.{tick-update_greater, tick_wraps}
use nell_db.Hlc.Codec.{decode_binary-encode_binary}
use nell_db.Record.{Record, marshal_binary, unmarshal_binary, encoded_size}
use nell_db.Record.Codec.{Encodable, unmarshal_binary-marshal_binary}
use nell_db.Record.Truncation.{
  length-marshal_binary, unmarshal_binary_truncated, unmarshal_binary-append, unmarshal_binary_size,
}
use nell_db.Knowledge
use nell_db.Knowledge.{KnowledgeVector, unseen}
use nell_db.Knowledge.Laws.{unseen-update_exact}
use nell_db.Knowledge.Codec.{unmarshal_binary-marshal_binary_kv}
use nell_db.Tests.Samples.{clock_1, clock_2, clock_max, first, second, node_a, node_b}

-- The physical clock stands still, and the peer is ahead.
tick-update_greater_example :
    (greater_than (tick (pos 900) (update clock_1 clock_2)) clock_2 ≡ true)
    × (greater_than (tick (pos 900) (update clock_1 clock_2)) clock_1 ≡ true)
unfolding update ltb_ℤ eqb_ℤ inc_int32
tick-update_greater_example =
    tick-update_greater (pos 900) clock_1 clock_2
      (record { room = λ e. omega (arith, ap pos_part e) })
      (record { room = λ e. omega (arith, ap pos_part e) })

tick_wraps_example : greater_than clock_max (tick (pos 1500) clock_max) ≡ true
unfolding ltb_ℤ
tick_wraps_example = tick_wraps (pos 1500) clock_max refl refl

pub first-Encodable : Encodable first
first-Encodable = omega arith

unmarshal_binary-marshal_binary_example :
    unmarshal_binary (marshal_binary first ++ (9 ∷ [])) ≡ ok first
unmarshal_binary-marshal_binary_example =
    unmarshal_binary-marshal_binary first (9 ∷ []) first-Encodable

unmarshal_binary_truncated_example : unmarshal_binary (take 20 (marshal_binary first)) ≢ ok second
unmarshal_binary_truncated_example =
    unmarshal_binary_truncated first second 20 first-Encodable
      (rw (length-marshal_binary first) (unfold encoded_size in omega arith))

unmarshal_binary-append_example : unmarshal_binary (marshal_binary first ++ (7 ∷ 7 ∷ [])) ≡ ok first
unmarshal_binary-append_example =
    unmarshal_binary-append (marshal_binary first) (7 ∷ 7 ∷ []) first
      (rw append-nil at (unmarshal_binary-marshal_binary first [] first-Encodable))

zeros : ℕ → List ℕ
zeros zero = []
zeros (suc n) = 0 ∷ zeros n

abbrev long : Record
long = record first { id = zeros 70000 }

length-marshal_binary_example : length (marshal_binary first) ≡ encoded_size first
length-marshal_binary_example = length-marshal_binary first

unmarshal_binary_size_example : encoded_size first ≤ length (marshal_binary first ++ (9 ∷ []))
unmarshal_binary_size_example =
    unmarshal_binary_size (marshal_binary first ++ (9 ∷ [])) first
      (unmarshal_binary-marshal_binary first (9 ∷ []) first-Encodable)

decode_binary-encode_binary_example :
    decode_binary (encode_binary clock_max ++ (9 ∷ [])) ≡ clock_max
decode_binary-encode_binary_example =
    decode_binary-encode_binary clock_max (9 ∷ [])
      (record { wall = omega arith; count = omega arith })

abbrev two_nodes : KnowledgeVector
two_nodes = (node_a, clock_1) ∷ (node_b, clock_max) ∷ []

unseen-update_exact_example :
    unseen (Knowledge.update two_nodes node_a clock_2) node_a clock_1
    ≡ (unseen two_nodes node_a clock_1 && (not (eqb node_a node_a) || greater_than clock_1 clock_2))
unseen-update_exact_example = unseen-update_exact two_nodes node_a node_a clock_2 clock_1

unmarshal_binary-marshal_binary_kv_example :
    Knowledge.unmarshal_binary [] (Knowledge.marshal_binary two_nodes ++ (5 ∷ [])) ≡ ok two_nodes
unfolding lookup eqb
unmarshal_binary-marshal_binary_kv_example =
    unmarshal_binary-marshal_binary_kv two_nodes (5 ∷ []) (refl, (refl, tt)) (omega arith)
      (omega arith)

-- The clocks run.
tick_resets : tick (pos 1001) clock_2 ≡ record { wall_time = pos 1001; counter = pos 0 }
unfolding tick ltb_ℤ
tick_resets = refl

update_ahead : update zero_hlc clock_2 ≡ record { wall_time = pos 1000; counter = pos 8 }
unfolding update ltb_ℤ inc_int32
update_ahead = refl

-- The bytes of a clock before the epoch.
encode_before_epoch :
    encode_binary (record { wall_time = negsuc 0; counter = pos 1 })
    ≡ 255 ∷ 255 ∷ 255 ∷ 255 ∷ 255 ∷ 255 ∷ 255 ∷ 255 ∷ 0 ∷ 0 ∷ 0 ∷ 1 ∷ []
unfolding encode_binary to_word put_be
encode_before_epoch = refl
