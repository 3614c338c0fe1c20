-- ===== src/Tests/Samples.antt =====
-- Records, clocks and nodes for the tests.
use nell_db.Base.{true, [], ◌∷◌}
use nell_db.Base.Int.{pos}
use nell_db.Base.Bytes.{Bytes}
use nell_db.Hlc.{Hlc}
use nell_db.Record.{Record, zero_record}

-- "a", "b", "x", "y"
abbrev pub node_a : Bytes
node_a = 97 ∷ []

abbrev pub node_b : Bytes
node_b = 98 ∷ []

abbrev pub clock_1 : Hlc
clock_1 = record { wall_time = pos 1000; counter = pos 0 }

abbrev pub clock_2 : Hlc
clock_2 = record { wall_time = pos 1000; counter = pos 7 }

-- A clock of a peer at the greatest counter.
abbrev pub clock_max : Hlc
clock_max = record { wall_time = pos 2000; counter = pos 0x7fff_ffff }

abbrev pub first : Record
first = record zero_record {
  collection = 120 ∷ [];
  id = 49 ∷ [];
  payload = 1 ∷ 2 ∷ [];
  vector = 0x3f80_0000 ∷ [];
  clock = clock_1;
  updated_by = node_a;
}

abbrev pub second : Record
second = record first { payload = 3 ∷ []; clock = clock_2; updated_by = node_b }

-- In the default collection, with another id.
abbrev pub third : Record
third = record zero_record { id = 50 ∷ []; clock = clock_2; updated_by = node_a; deleted = true }
