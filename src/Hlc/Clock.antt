-- ===== src/Hlc/Clock.antt =====
-- `Tick` and `Update` of types.go keep a clock ahead of all that it has seen, as long as the int32
-- counter does not wrap.
use nell_db.Base.{◌≡◌, ◌≢◌, ap, true, false, arith}
use nell_db.Base.Int.{ℤ, pos, negsuc, ◌<ℤ◌, ltb_ℤ, eqb_ℤ}
use nell_db.Hlc.Order.{greater_than_trans, greater_than_trans_le}
use nell_db.Hlc.{Hlc, max_int32, inc_int32, tick, update, greater_than}

-- The counter is an int32 with room for one more tick.
pub record HasRoom (h : Hlc) : Type 0 where
  pub room : h.counter ≢ pos max_int32

inc_int32-lt : (c : ℤ) → c ≢ pos max_int32 → c <ℤ inc_int32 c
unfolding inc_int32
inc_int32-lt (pos n) h = let g : n ≢ max_int32 = λ e. h (ap pos e) in ground arith
inc_int32-lt (negsuc n) h = ground arith

pub tick-greater : (now : ℤ) (h : Hlc) → HasRoom h → greater_than (tick now h) h ≡ true
unfolding tick greater_than ltb_ℤ eqb_ℤ
tick-greater now h r = ground (arith, inc_int32-lt h.counter r.room)

pub update-greater : (h peer : Hlc) → HasRoom peer → greater_than (update h peer) peer ≡ true
unfolding update greater_than ltb_ℤ eqb_ℤ
update-greater h peer r = ground (arith, inc_int32-lt peer.counter r.room)

pub update-ge : (h peer : Hlc) → HasRoom peer → greater_than h (update h peer) ≡ false
unfolding update greater_than ltb_ℤ eqb_ℤ
update-ge h peer r = ground (arith, inc_int32-lt peer.counter r.room)

-- After a peer's clock has been merged by `Update`, the next local `Tick` returns a clock that is
-- greater than the peer's and greater than the local clock before the merge, whatever the physical
-- time is, provided that neither the peer's counter nor the merged one is at its int32 maximum.
pub tick-update_greater :
    (now : ℤ) (h peer : Hlc)
    → HasRoom peer
    → HasRoom (update h peer)
    → (greater_than (tick now (update h peer)) peer ≡ true)
      × (greater_than (tick now (update h peer)) h ≡ true)
tick-update_greater now h peer r room =
    let ahead = tick-greater now (update h peer) room in
    (
      greater_than_trans _ (update h peer) peer ahead (update-greater h peer r),
      greater_than_trans_le _ (update h peer) h ahead (update-ge h peer r),
    )

-- A clock whose counter is at the int32 maximum goes back when it ticks before the physical time
-- has passed its wall time: the counter wraps, and the new clock is less than the old one.
pub tick_wraps :
    (now : ℤ) (h : Hlc)
    → h.counter ≡ pos max_int32
    → ltb_ℤ h.wall_time now ≡ false
    → greater_than h (tick now h) ≡ true
unfolding tick greater_than ltb_ℤ eqb_ℤ inc_int32
tick_wraps now h e late = ground arith
