-- ===== src/Doc/Rev.antt =====
-- The generations of the revisions that `genRev` of sdk/rev.go makes.
use nell_db.Base.{
  ℕ, suc, ◌^◌, ◌<◌, ◌≡◌, ◌∙◌, refl, ap, true, false, List, [], ◌∷◌, ◌++◌, ◌==◌, ◌&&◌, All, length,
  arith, if◌then◌else◌,
}
use nell_db.Base.Int.{pos, ltb_ℤ}
use nell_db.Base.Bytes.{Bytes}
use nell_db.Doc.{Library, is_empty, before_dash, inc_int, next_gen, gen_rev, parse_gen}

-- What strconv does with a natural number that fits an int: digits, which parse to the number.
pub record PrintsNumbers (lib : Library) : Type 0 where
  pub digits : (n : ℕ) → n < 2 ^ 63 → All (λ b. (b == 45) ≡ false) (lib.print (pos n))
  pub parses : (n : ℕ) → n < 2 ^ 63 → lib.parse (lib.print (pos n)) ≡ (pos n, true)

before_dash-append :
    (digits rest : Bytes)
    → All (λ b. (b == 45) ≡ false) digits
    → before_dash (digits ++ (45 ∷ rest)) ≡ digits
unfolding before_dash
before_dash-append [] rest h = refl
before_dash-append (b ∷ bs) rest (one, h) = rw one (ap (◌∷◌ b) (before_dash-append bs rest h))

is_empty-dash : (digits rest : Bytes) → is_empty (digits ++ (45 ∷ rest)) ≡ false
unfolding is_empty
is_empty-dash [] rest = refl
is_empty-dash (b ∷ bs) rest = refl

next_step :
    (n : ℕ)
    → suc (suc n) < 2 ^ 63
    → (if true && ltb_ℤ (pos 0) (pos (suc n)) then inc_int (pos (suc n)) else pos 1)
      ≡ pos (suc (suc n))
unfolding ltb_ℤ inc_int
next_step n small = ground arith

module _ (lib : Library) (prints : PrintsNumbers lib) where
  -- The revision after the bodies of a list were written one after the other, the last one first.
  unfoldable pub chain : List Bytes → Bytes
  chain [] = []
  chain (body ∷ bodies) = gen_rev lib (chain bodies) body

  parse-before_dash :
      (n : ℕ) (prev body : Bytes)
      → n < 2 ^ 63
      → next_gen lib prev ≡ pos n
      → (lib.parse (before_dash (gen_rev lib prev body)) ≡ (pos n, true))
        × (is_empty (gen_rev lib prev body) ≡ false)
  unfolding gen_rev
  parse-before_dash n prev body small e = rw e (
    ap lib.parse
          (before_dash-append (lib.print (pos n)) (lib.sha1_hex body) (prints.digits n small))
        ∙ prints.parses n small,
    is_empty-dash (lib.print (pos n)) (lib.sha1_hex body),
  )

  next_gen-chain :
      (bodies : List Bytes)
      → suc (length bodies) < 2 ^ 63
      → next_gen lib (chain bodies) ≡ pos (suc (length bodies))
  unfolding next_gen chain is_empty
  next_gen-chain [] small = refl
  next_gen-chain (body ∷ bodies) small =
      let before = next_gen-chain bodies (omega arith) in
      let (parsed, full) =
        parse-before_dash (suc (length bodies)) (chain bodies) body (omega arith) before in
      rw (full, parsed) (next_step (length bodies) small)

  -- After any number of bodies, below `2 ^ 63`, were written one after the other from an empty
  -- revision, the generation of the revision is that number. Numbers print as digits, which parse to them.
  pub parse_gen-chain :
      (bodies : List Bytes)
      → length bodies < 2 ^ 63
      → parse_gen lib (chain bodies) ≡ pos (length bodies)
  unfolding parse_gen chain
  parse_gen-chain [] small = unfold is_empty in refl
  parse_gen-chain (body ∷ bodies) small =
      let (parsed, full) =
        parse-before_dash (suc (length bodies)) (chain bodies) body small
          (next_gen-chain bodies small) in
      rw (full, parsed) refl
