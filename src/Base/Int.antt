-- ===== src/Base/Int.antt =====
-- Go's signed integers as integers over the native numbers, with the order and the two's
-- complement reading of a word.
use Prim.Native.Nat.{ℕ, suc, ◌+◌, ◌-◌, ◌*◌, ◌≤◌, ◌<◌, ◌%◌, ◌^◌}
use mathlib.Core.Path.{◌≡◌}
use mathlib.Core.Bool.{Bool, true}
use native.Mathlib.Omega.{arith}
use nell_db.Base.Tests.{ltb, ◌==◌, if◌then◌else◌}

-- `negsuc n` is -(n + 1).
pub data ℤ : Type 0 where
  pos : ℕ → ℤ
  negsuc : ℕ → ℤ

abbrev pub pos_part : ℤ → ℕ
pos_part (pos n) = n
pos_part (negsuc n) = 0

abbrev pub neg_part : ℤ → ℕ
neg_part (pos n) = 0
neg_part (negsuc n) = suc n

infix 50 ◌<ℤ◌ ◌≤ℤ◌
abbrev pub ◌<ℤ◌ : ℤ → ℤ → Type 0
a <ℤ b = pos_part a + neg_part b < pos_part b + neg_part a

abbrev pub ◌≤ℤ◌ : ℤ → ℤ → Type 0
a ≤ℤ b = pos_part a + neg_part b ≤ pos_part b + neg_part a

unfoldable pub ltb_ℤ : ℤ → ℤ → Bool
ltb_ℤ a b = ltb (pos_part a + neg_part b) (pos_part b + neg_part a)

unfoldable pub eqb_ℤ : ℤ → ℤ → Bool
eqb_ℤ a b = (pos_part a + neg_part b) == (pos_part b + neg_part a)

pub eqb_ℤ→eq : (a b : ℤ) → eqb_ℤ a b ≡ true → a ≡ b
unfolding eqb_ℤ
eqb_ℤ→eq (pos a) (pos b) h = ground arith
eqb_ℤ→eq (pos a) (negsuc b) h = ground arith
eqb_ℤ→eq (negsuc a) (pos b) h = ground arith
eqb_ℤ→eq (negsuc a) (negsuc b) h = ground arith

-- `uint64(x)` and `int64(w)` for a word of `w` bits: two's complement.
unfoldable pub to_word : ℕ → ℤ → ℕ
to_word w (pos n) = n % 2 ^ w
to_word w (negsuc n) = 2 ^ w - 1 - n % 2 ^ w

unfoldable pub of_word : ℕ → ℕ → ℤ
of_word w n = if ltb (n * 2) (2 ^ w) then pos n else negsuc (2 ^ w - 1 - n)

-- The integers that an `int32` and an `int64` hold.
abbrev pub FitsInt32 : ℤ → Type 0
FitsInt32 (pos n) = n < 2 ^ 31
FitsInt32 (negsuc n) = n < 2 ^ 31

abbrev pub FitsInt64 : ℤ → Type 0
FitsInt64 (pos n) = n < 2 ^ 63
FitsInt64 (negsuc n) = n < 2 ^ 63

pub of_word-to_word_32 : (a : ℤ) → FitsInt32 a → of_word 32 (to_word 32 a) ≡ a
unfolding of_word to_word
of_word-to_word_32 (pos n) h = ground arith
of_word-to_word_32 (negsuc n) h = ground arith

pub of_word-to_word_64 : (a : ℤ) → FitsInt64 a → of_word 64 (to_word 64 a) ≡ a
unfolding of_word to_word
of_word-to_word_64 (pos n) h = ground arith
of_word-to_word_64 (negsuc n) h = ground arith

pub to_word_32-lt : (a : ℤ) → to_word 32 a < 2 ^ 32
unfolding to_word
to_word_32-lt (pos n) = omega arith
to_word_32-lt (negsuc n) = omega arith

pub to_word_64-lt : (a : ℤ) → to_word 64 a < 2 ^ 64
unfolding to_word
to_word_64-lt (pos n) = omega arith
to_word_64-lt (negsuc n) = omega arith
