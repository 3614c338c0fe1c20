-- ===== src/Resolve.antt =====
-- `ResolveConflict` of store.go. It returns one of its two pointers, and the stores test which: the
-- model returns the side.
pub mod Order
use nell_db.Base.{if◌then◌else◌}
use nell_db.Base.Bytes.{lt_bytes}
use nell_db.Hlc.{greater_than}
use nell_db.Record.{Record}

pub data Side : Type 0 where
  local incoming : Side

unfoldable pub resolve_conflict : Record → Record → Side
resolve_conflict l i =
    if greater_than i.clock l.clock
    then incoming
    else if greater_than l.clock i.clock
    then local
    else if lt_bytes l.updated_by i.updated_by
    then incoming
    else local

-- The record that a side stands for, `*winner`.
abbrev pub pick : Side → Record → Record → Record
pick local l i = l
pick incoming l i = i
