-- ===== src/Base/Bytes.antt =====
-- Go strings and byte slices: lists of bytes, with the equality and the lexicographic order that
-- Go's `==` and `<` on strings have, and the big-endian numbers of encoding/binary.
use Prim.Native.Nat.{ℕ, zero, suc, ◌+◌, ◌*◌, ◌/◌, ◌%◌, ◌^◌, ◌<◌}
use mathlib.Core.Path.{◌≡◌, refl, ◌∙◌}
use mathlib.Core.Logic.{◌↔◌}
use mathlib.Core.Bool.{Bool, true, false, ◌&&◌}
use mathlib.Core.List.{List, [], ◌∷◌, ◌++◌}
use native.Mathlib.Nat.{pow-suc}
use native.Mathlib.Omega.{arith}
use nell_db.Base.Tests.{ltb, ◌==◌, if◌then◌else◌}
use nell_db.Base.Lists.{length, length-append}

abbrev pub Bytes : Type 0
Bytes = List ℕ

unfoldable pub eqb : Bytes → Bytes → Bool
eqb [] [] = true
eqb [] (b ∷ bs) = false
eqb (a ∷ as') [] = false
eqb (a ∷ as') (b ∷ bs) = a == b && eqb as' bs

pub eqb_refl : (a : Bytes) → eqb a a ≡ true
unfolding eqb
eqb_refl [] = refl
eqb_refl (x ∷ a) = ground (arith, eqb_refl a)

pub eqb→eq : (a b : Bytes) → eqb a b ≡ true → a ≡ b
unfolding eqb
eqb→eq [] [] h = refl
eqb→eq [] (y ∷ b) h = cc
eqb→eq (x ∷ a) [] h = cc
eqb→eq (x ∷ a) (y ∷ b) h = ground (arith, eqb→eq a b)

pub eqb_iff : (a b : Bytes) → (eqb a b ≡ true) ↔ (a ≡ b)
eqb_iff a b = (eqb→eq a b, λ e. rw e (eqb_refl b))

pub eqb_comm : (a b : Bytes) → eqb a b ≡ eqb b a
eqb_comm a b = ground (arith, eqb_iff a b, eqb_iff b a)

-- `a < b` on Go strings.
unfoldable pub lt_bytes : Bytes → Bytes → Bool
lt_bytes a [] = false
lt_bytes [] (y ∷ b) = true
lt_bytes (x ∷ a) (y ∷ b) = if x == y then lt_bytes a b else ltb x y

pub lt_bytes_irrefl : (a : Bytes) → lt_bytes a a ≡ false
unfolding lt_bytes
lt_bytes_irrefl [] = refl
lt_bytes_irrefl (x ∷ a) = ground (arith, lt_bytes_irrefl a)

pub lt_bytes_trans :
    (a b c : Bytes) → lt_bytes a b ≡ true → lt_bytes b c ≡ true → lt_bytes a c ≡ true
unfolding lt_bytes
lt_bytes_trans a b [] h k = cc
lt_bytes_trans a [] (z ∷ c) h k = cc
lt_bytes_trans [] (y ∷ b) (z ∷ c) h k = refl
lt_bytes_trans (x ∷ a) (y ∷ b) (z ∷ c) h k = ground (arith, lt_bytes_trans a b c)

pub lt_bytes_connected : (a b : Bytes) → lt_bytes a b ≡ false → lt_bytes b a ≡ false → a ≡ b
unfolding lt_bytes
lt_bytes_connected [] [] h k = refl
lt_bytes_connected [] (y ∷ b) h k = cc
lt_bytes_connected (x ∷ a) [] h k = cc
lt_bytes_connected (x ∷ a) (y ∷ b) h k = ground (arith, lt_bytes_connected a b)

-- `binary.BigEndian.PutUintN`: the `n` low bytes of `v`, the highest first.
unfoldable pub put_be : ℕ → ℕ → Bytes
put_be zero v = []
put_be (suc n) v = put_be n (v / 256) ++ (v % 256 ∷ [])

get_be_from : ℕ → Bytes → ℕ
get_be_from acc [] = acc
get_be_from acc (b ∷ bs) = get_be_from (acc * 256 + b) bs

-- `binary.BigEndian.UintN` of a slice of the right length.
unfoldable pub get_be : Bytes → ℕ
unfolding get_be_from
get_be bs = get_be_from 0 bs

get_be_from-snoc :
    (acc : ℕ) (bs : Bytes) (b : ℕ) → get_be_from acc (bs ++ (b ∷ [])) ≡ get_be_from acc bs * 256 + b
unfolding get_be_from
get_be_from-snoc acc [] b = refl
get_be_from-snoc acc (x ∷ bs) b = get_be_from-snoc (acc * 256 + x) bs b

pub get_be-put_be : (n v : ℕ) → v < 256 ^ n → get_be (put_be n v) ≡ v
unfolding get_be put_be
get_be-put_be zero v h = omega arith
get_be-put_be (suc n) v h =
    get_be_from-snoc 0 (put_be n (v / 256)) (v % 256)
    ∙ omega (arith, get_be-put_be n (v / 256) (omega (arith, pow-suc 256 n)))

pub length-put_be : (n v : ℕ) → length (put_be n v) ≡ n
unfolding put_be
length-put_be zero v = refl
length-put_be (suc n) v =
    length-append (put_be n (v / 256)) (v % 256 ∷ []) ∙ omega (arith, length-put_be n (v / 256))
