-- ===== src/Hlc/Order.antt =====
-- `HLC.GreaterThan` of types.go as an order.
use nell_db.Base.{◌≡◌, ◌↔◌, true, false, arith}
use nell_db.Base.Int.{ltb_ℤ, eqb_ℤ, eqb_ℤ→eq}
use nell_db.Hlc.{Hlc, greater_than, equal}

pub greater_than_irrefl : (a : Hlc) → greater_than a a ≡ false
unfolding greater_than ltb_ℤ eqb_ℤ
greater_than_irrefl a = ground arith

pub greater_than_trans :
    (a b c : Hlc) → greater_than a b ≡ true → greater_than b c ≡ true → greater_than a c ≡ true
unfolding greater_than ltb_ℤ eqb_ℤ
greater_than_trans a b c h k = ground arith

pub greater_than_asymm : (a b : Hlc) → greater_than a b ≡ true → greater_than b a ≡ false
unfolding greater_than ltb_ℤ eqb_ℤ
greater_than_asymm a b h = ground arith

equal_of_incomparable :
    (a b : Hlc) → greater_than a b ≡ false → greater_than b a ≡ false → equal a b ≡ true
unfolding greater_than equal ltb_ℤ eqb_ℤ
equal_of_incomparable a b h k = ground arith

equal→eq : (a b : Hlc) → equal a b ≡ true → a ≡ b
unfolding equal
equal→eq a b h = ground (arith, eqb_ℤ→eq a.wall_time b.wall_time, eqb_ℤ→eq a.counter b.counter)

pub greater_than_connected :
    (a b : Hlc) → greater_than a b ≡ false → greater_than b a ≡ false → a ≡ b
greater_than_connected a b h k = equal→eq a b (equal_of_incomparable a b h k)

-- `¬ (b > a)` and `c > b` give `c > a`, and the like on the other side.
pub greater_than_trans_le :
    (a b c : Hlc) → greater_than a b ≡ true → greater_than c b ≡ false → greater_than a c ≡ true
unfolding greater_than ltb_ℤ eqb_ℤ
greater_than_trans_le a b c h k = ground arith

pub le_greater_than_trans :
    (a b c : Hlc) → greater_than b a ≡ false → greater_than b c ≡ true → greater_than a c ≡ true
unfolding greater_than ltb_ℤ eqb_ℤ
le_greater_than_trans a b c h k = ground arith

pub le_trans_hlc :
    (a b c : Hlc) → greater_than a b ≡ false → greater_than b c ≡ false → greater_than a c ≡ false
unfolding greater_than ltb_ℤ eqb_ℤ
le_trans_hlc a b c h k = ground arith

pub equal-iff-eq : (a b : Hlc) → (equal a b ≡ true) ↔ (a ≡ b)
unfolding equal eqb_ℤ
equal-iff-eq a b = (equal→eq a b, λ e. ground arith)
