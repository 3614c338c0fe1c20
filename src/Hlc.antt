-- ===== src/Hlc.antt =====
-- The hybrid logical clock of types.go: `HLC` and its methods. The physical time that `NewHLC` and
-- `Tick` read from the system is the argument `now`, in Unix milliseconds.
pub mod Order
pub mod Clock
pub mod Codec
use nell_db.Base.{
  ℕ, zero, suc, ◌+◌, ◌-◌, ◌^◌, Bool, true, ◌&&◌, ◌++◌, not, take, drop, ◌==◌, if◌then◌else◌,
}
use nell_db.Base.Int.{ℤ, pos, negsuc, ltb_ℤ, eqb_ℤ, to_word, of_word}
use nell_db.Base.Bytes.{Bytes, put_be, get_be}

pub record Hlc : Type 0 where
  pub wall_time : ℤ
  pub counter : ℤ

abbrev pub hlc_size : ℕ
hlc_size = 12

-- `HLC{}`
abbrev pub zero_hlc : Hlc
zero_hlc = record { wall_time = pos 0; counter = pos 0 }

unfoldable pub new_hlc : ℤ → Hlc
new_hlc now = record { wall_time = now; counter = pos 0 }

abbrev pub max_int32 : ℕ
max_int32 = 2 ^ 31 - 1

-- `c + 1` on an int32, which wraps from the greatest value to the least.
unfoldable pub inc_int32 : ℤ → ℤ
inc_int32 (pos n) = if n == max_int32 then negsuc max_int32 else pos (n + 1)
inc_int32 (negsuc zero) = pos 0
inc_int32 (negsuc (suc n)) = negsuc n

unfoldable pub tick : ℤ → Hlc → Hlc
tick now h =
    if ltb_ℤ h.wall_time now
    then record { wall_time = now; counter = pos 0 }
    else record h { counter = inc_int32 h.counter }

unfoldable pub update : Hlc → Hlc → Hlc
update h peer =
    if ltb_ℤ h.wall_time peer.wall_time
    then record { wall_time = peer.wall_time; counter = inc_int32 peer.counter }
    else if eqb_ℤ peer.wall_time h.wall_time && not (ltb_ℤ peer.counter h.counter)
    then record h { counter = inc_int32 peer.counter }
    else h

unfoldable pub greater_than : Hlc → Hlc → Bool
greater_than a b =
    if not (eqb_ℤ a.wall_time b.wall_time)
    then ltb_ℤ b.wall_time a.wall_time
    else ltb_ℤ b.counter a.counter

unfoldable pub equal : Hlc → Hlc → Bool
equal a b = eqb_ℤ a.wall_time b.wall_time && eqb_ℤ a.counter b.counter

unfoldable pub encode_binary : Hlc → Bytes
encode_binary h = put_be 8 (to_word 64 h.wall_time) ++ put_be 4 (to_word 32 h.counter)

unfoldable pub decode_binary : Bytes → Hlc
decode_binary b = record {
  wall_time = of_word 64 (get_be (take 8 b));
  counter = of_word 32 (get_be (take 4 (drop 8 b)));
}
