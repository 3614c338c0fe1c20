-- ===== src/Auth/Body.antt =====
-- The `bodyReader` of server/auth.go gives a handler the whole body.
use nell_db.Base.{
  ℕ, zero, suc, ◌+◌, ◌≤◌, ◌≡◌, refl, sym, ap, ◌∙◌, true, false, Option, none, some, [], ◌∷◌, ◌++◌,
  ltb, length, take, drop, arith, Bool-cases, inl, inr, ltb→lt, drop-drop, length-drop,
}
use nell_db.Base.Bytes.{Bytes}
use nell_db.Auth.{BodyReader, read}

prepend : Bytes → Option Bytes → Option Bytes
prepend bs none = none
prepend bs (some more) = some (bs ++ more)

-- What a caller gets that calls `Read` with a buffer of `room` bytes until it reports the end, at most
-- `reads` times; none if the end has not been reported by then.
unfoldable pub read_all : ℕ → ℕ → BodyReader → Option Bytes
unfolding prepend
read_all zero room r = none
read_all (suc reads) room r =
    let (next, chunk) = read r room in
    let rest = read_all reads room next in elim chunk [ none ↦ some [] | some bs ↦ prepend bs rest ]

drop_all : (n : ℕ) (xs : Bytes) → length xs ≤ n → drop n xs ≡ []
drop_all zero [] h = refl
drop_all zero (x ∷ xs) h = absurd (omega arith)
drop_all (suc n) [] h = refl
drop_all (suc n) (x ∷ xs) h = drop_all n xs (omega arith)

take-drop-length : (n : ℕ) (xs : Bytes) → take n xs ++ drop (length (take n xs)) xs ≡ xs
take-drop-length zero xs = refl
take-drop-length (suc n) [] = refl
take-drop-length (suc n) (x ∷ xs) = ap (◌∷◌ x) (take-drop-length n xs)

take_some : (n : ℕ) (xs : Bytes) → 1 ≤ n → 1 ≤ length xs → 1 ≤ length (take n xs)
take_some zero xs h g = absurd (omega arith)
take_some (suc n) [] h g = g
take_some (suc n) (x ∷ xs) h g = omega arith

abbrev after : BodyReader → ℕ → BodyReader
after r room = record r { position = r.position + length (take room (drop r.position r.bytes)) }

read_more :
    (r : BodyReader) (room : ℕ)
    → ltb r.position (length r.bytes) ≡ true
    → read r room ≡ (after r room, some (take room (drop r.position r.bytes)))
unfolding read
read_more r room e = rw e refl

read_end :
    (r : BodyReader) (room : ℕ) → ltb r.position (length r.bytes) ≡ false → read r room ≡ (r, none)
unfolding read
read_end r room e = rw e refl

-- With any buffer that is not empty, `Read` reports the end after at most as many calls as there are bytes
-- left and one more, and the bytes that it gave until then are the rest of the body.
pub read_all_lem :
    (reads room : ℕ) (r : BodyReader)
    → 1 ≤ room
    → length (drop r.position r.bytes) + 1 ≤ reads
    → read_all reads room r ≡ some (drop r.position r.bytes)
unfolding read_all prepend
read_all_lem zero room r h enough = absurd (omega arith)
read_all_lem (suc reads) room r h enough = elim (Bool-cases (ltb r.position (length r.bytes))) [
  | inl e ↦
      rw (read_more r room e, read_all)
        (ap (prepend chunk) (
            ap (λ (p : BodyReader × Option Bytes). read_all reads room p.0) (read_more r room e)
            ∙ rest e (read_all_lem reads room next h))
          ∙ ap some (take-drop-length room left))
  | inr e ↦
      rw (read_end r room e, read_all)
        (ap some (sym (drop_all r.position r.bytes (ground (arith, e)))))
]
  where
    left : Bytes
    left = drop r.position r.bytes

    chunk : Bytes
    chunk = take room left

    next : BodyReader
    next = after r room

    behind : drop next.position r.bytes ≡ drop (length chunk) left
    behind = sym (drop-drop r.position (length chunk) r.bytes)

    rest :
        ltb r.position (length r.bytes) ≡ true
        → (length (drop next.position r.bytes) + 1 ≤ reads
            → read_all reads room next ≡ some (drop next.position r.bytes))
        → read_all reads room next ≡ some (drop (length chunk) left)
    rest e again =
        let some_left : 1 ≤ length left =
          omega (arith, length-drop r.position r.bytes, ltb→lt r.position (length r.bytes) e) in
        again (
          rw behind (
            omega
              (arith, length-drop (length chunk) left, take_some room left h some_left, enough)))
        ∙ ap some behind
