-- ===== src/MemoryStore/Changes/Order.antt =====
-- The comparison that `rebuildChangesIndex` sorts by is an order: that of the clocks, and for equal
-- clocks that of the keys.
use nell_db.Base.{◌≡◌, true, false, arith}
use nell_db.Base.Int.{ltb_ℤ, eqb_ℤ}
use nell_db.Hlc.{greater_than}
use nell_db.Record.{Record, zero_record}
use nell_db.Resolve.Order.{beats, beats_asymm, beats_trans_not}
use nell_db.MemoryStore.{ClockKey, clock_key_less}

-- An entry as a record with the entry's key for the writing node.
abbrev as_record : ClockKey → Record
as_record ck = record zero_record { clock = ck.clock; updated_by = ck.key }

clock_key_less-beats : (a b : ClockKey) → clock_key_less a b ≡ beats (as_record b) (as_record a)
unfolding clock_key_less beats greater_than ltb_ℤ eqb_ℤ
clock_key_less-beats a b = ground arith

pub clock_key_less-asymm : (a b : ClockKey) → clock_key_less a b ≡ true → clock_key_less b a ≡ false
clock_key_less-asymm a b =
    rw (clock_key_less-beats a b, clock_key_less-beats b a)
      (beats_asymm (as_record b) (as_record a))

pub clock_key_less-trans_not :
    (a b c : ClockKey)
    → clock_key_less a b ≡ false
    → clock_key_less b c ≡ false
    → clock_key_less a c ≡ false
clock_key_less-trans_not a b c h k = rw (clock_key_less-beats a c) (
    beats_trans_not (as_record c) (as_record b) (as_record a) (rw (clock_key_less-beats b c) at k)
      (rw (clock_key_less-beats a b) at h))

-- An entry that does not come before another has no lesser clock.
pub less→le : (a b : ClockKey) → clock_key_less b a ≡ false → greater_than a.clock b.clock ≡ false
unfolding clock_key_less greater_than ltb_ℤ eqb_ℤ
less→le a b h = ground arith
