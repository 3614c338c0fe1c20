-- ===== src/Resolve/Order.antt =====
-- `ResolveConflict` keeps the greater of two records in one order, that of their stamps: the clock,
-- and for equal clocks the name of the writing node.
use nell_db.Base.{◌≡◌, refl, ◌∙◌, Bool, true, false, arith, inl, inr, Bool-cases, if◌then◌else◌}
use nell_db.Base.Bytes.{lt_bytes, lt_bytes_irrefl, lt_bytes_trans, lt_bytes_connected}
use nell_db.Hlc.{greater_than}
use nell_db.Hlc.Order.{
  greater_than_irrefl, greater_than_trans, greater_than_connected, greater_than_asymm,
  greater_than_trans_le, le_greater_than_trans, le_trans_hlc,
}
use nell_db.Record.{Record}
use nell_db.Resolve.{local, incoming, resolve_conflict}

-- `a` beats `b`.
unfoldable pub beats : Record → Record → Bool
beats a b =
    if greater_than a.clock b.clock
    then true
    else if greater_than b.clock a.clock
    then false
    else lt_bytes b.updated_by a.updated_by

pub resolve_conflict-beats :
    (l i : Record) → resolve_conflict l i ≡ (if beats i l then incoming else local)
unfolding resolve_conflict beats
resolve_conflict-beats l i = ground arith

pub beats_irrefl : (a : Record) → beats a a ≡ false
unfolding beats
beats_irrefl a = ground (arith, greater_than_irrefl a.clock, lt_bytes_irrefl a.updated_by)

pub beats_asymm : (a b : Record) → beats a b ≡ true → beats b a ≡ false
unfolding beats
beats_asymm a b h = ground (
  arith,
  greater_than_asymm a.clock b.clock,
  greater_than_asymm b.clock a.clock,
  lt_bytes_trans a.updated_by b.updated_by a.updated_by,
  lt_bytes_irrefl a.updated_by,
)

-- Two records that do not beat one another have the same stamp.
pub beats_connected :
    (a b : Record)
    → beats a b ≡ false
    → beats b a ≡ false
    → (a.clock ≡ b.clock) × (a.updated_by ≡ b.updated_by)
unfolding beats
beats_connected a b h k =
    ground
      (arith, greater_than_connected a.clock b.clock, lt_bytes_connected a.updated_by b.updated_by)

pub beats_trans : (a b c : Record) → beats a b ≡ true → beats b c ≡ true → beats a c ≡ true
unfolding beats
beats_trans a b c h k = ground (
  arith,
  greater_than_trans a.clock b.clock c.clock,
  greater_than_trans_le a.clock b.clock c.clock,
  le_greater_than_trans a.clock b.clock c.clock,
  le_trans_hlc c.clock b.clock a.clock,
  lt_bytes_trans c.updated_by b.updated_by a.updated_by,
)

pub beats_same_stamp :
    (a b c : Record) → a.clock ≡ b.clock → a.updated_by ≡ b.updated_by → beats a c ≡ beats b c
unfolding beats
beats_same_stamp a b c p q = rw (p, q) refl

-- If `a` does not beat `b`, and `b` does not beat `c`, then `a` does not beat `c`.
pub beats_trans_not : (a b c : Record) → beats a b ≡ false → beats b c ≡ false → beats a c ≡ false
beats_trans_not a b c h k = elim (Bool-cases (beats b a)) [
  | inl back ↦ elim (Bool-cases (beats a c)) [ inl e ↦ cc (beats_trans b a c back e) | inr e ↦ e ]
  | inr level ↦ let (p, q) = beats_connected a b h level in beats_same_stamp a b c p q ∙ k
]
