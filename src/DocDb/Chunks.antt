-- ===== src/DocDb/Chunks.antt =====
-- The chunks that the workers of `AllDocs` in sdk/docdb.go scan, and the order in which they send rows.
use mathlib.Core.List.{Perm, Permᴰ, Perm-prop, perm_append_comm}
use mathlib.Core.List.Perm
use mathlib.Core.Logic.{∥∥₁_elim}
use native.Mathlib.Nat.{ℕ_set, mod-add-div, mod-lt}
use nell_db.Base.{
  ℕ, zero, suc, ◌≡◌, ◌∙◌, ◌≤◌, ◌<◌, refl, sym, ap, subst, ◌+◌, ◌-◌, ◌*◌, min, List, [], ◌∷◌, ◌++◌,
  ltb, length, take, drop, map, append_assoc, arith, Bool-cases, inl, inr, take-append-drop,
  drop-drop, length-drop,
}
use nell_db.Base.Map.{Map}
use nell_db.Base.Bytes.{Bytes}
use nell_db.Record.{Record}
use nell_db.Doc.{Library}
use nell_db.DocDb.Rows.{DocRow, DocRange, scan, chunks, chunk_size, num_workers, gather, scan_all}

join : List (List Record) → List Record
join [] = []
join (xs ∷ xss) = xs ++ join xss

drop_all : (n : ℕ) (xs : List Record) → length xs ≤ n → drop n xs ≡ []
drop_all zero [] h = refl
drop_all zero (x ∷ xs) h = absurd (omega arith)
drop_all (suc n) [] h = refl
drop_all (suc n) (x ∷ xs) h = drop_all n xs (omega arith)

take_all : (n : ℕ) (xs : List Record) → length xs ≤ n → take n xs ≡ xs
take_all zero [] h = refl
take_all zero (x ∷ xs) h = absurd (omega arith)
take_all (suc n) [] h = refl
take_all (suc n) (x ∷ xs) h = ap (◌∷◌ x) (take_all n xs (omega arith))

-- The end of a slice may be cut off at the end of the list.
take-min :
    (start size : ℕ) (all : List Record)
    → take (min (start + size) (length all) - start) (drop start all) ≡ take size (drop start all)
take-min start size all = elim (Bool-cases (ltb (length all) (start + size))) [
  | inr t ↦
      let e : min (start + size) (length all) - start ≡ size = ground arith in
      ap (λ k. take k (drop start all)) e
  | inl t ↦
      let e : min (start + size) (length all) - start ≡ length all - start = ground arith in
      ap (λ k. take k (drop start all)) e
      ∙ take_all _ (drop start all) (omega (arith, length-drop start all))
      ∙ sym (take_all size (drop start all) (ground (arith, length-drop start all)))
]

join-chunks :
    (left w size : ℕ) (all : List Record)
    → length all ≤ w * size + left * size
    → join (chunks left w size all) ≡ drop (w * size) all
unfolding join chunks
join-chunks zero w size all enough = sym (drop_all (w * size) all (omega arith))
join-chunks (suc left) w size all enough = elim (Bool-cases (ltb (w * size) (length all))) [
  | inr t ↦ rw t (sym (drop_all (w * size) all (ground arith)))
  | inl t ↦
      let step : w * size + size ≡ suc w * size = omega arith in
      rw (t, take-min (w * size) size all, join-chunks left (suc w) size all (omega arith))
        (ap (λ k. take size (drop (w * size) all) ++ drop k all) (sym step)
          ∙ ap (λ xs. take size (drop (w * size) all) ++ xs) (sym (drop-drop (w * size) size all))
          ∙ take-append-drop size (drop (w * size) all))
]

-- The size of the chunks is rounded up.
chunk_size-enough :
    (workers : ℕ) (all : List Record) → 0 < workers → length all ≤ workers * chunk_size workers all
unfolding chunk_size
chunk_size-enough workers all some_workers =
    let n = length all + workers - 1 in omega (arith, mod-add-div n workers, mod-lt n some_workers)

num_workers-positive : (cpus : ℕ) (all : List Record) → 0 < cpus → 0 < num_workers cpus all
unfolding num_workers
num_workers-positive cpus all h = ground arith

scan-append :
    (lib : Library) (revs : Map Bytes) (rng : DocRange) (xs ys : List Record)
    → scan lib revs rng (xs ++ ys) ≡ scan lib revs rng xs ++ scan lib revs rng ys
unfolding scan
scan-append lib revs rng [] ys = refl
scan-append lib revs rng (x ∷ xs) ys = ground (arith, scan-append lib revs rng xs ys)

gather-map :
    (lib : Library) (revs : Map Bytes) (rng : DocRange) (xss : List (List Record))
    → gather (map (scan lib revs rng) xss) ≡ scan lib revs rng (join xss)
unfolding gather join
gather-map lib revs rng [] = unfold scan in refl
gather-map lib revs rng (xs ∷ xss) =
    ap (λ r. scan lib revs rng xs ++ r) (gather-map lib revs rng xss)
    ∙ sym (scan-append lib revs rng xs (join xss))

swap_front : (xs ys zs : List DocRow) → Perm (xs ++ (ys ++ zs)) (ys ++ (xs ++ zs))
swap_front xs ys zs =
    subst (λ l. Perm l (ys ++ (xs ++ zs))) (append_assoc xs ys zs)
      (subst (λ l. Perm (xs ++ ys ++ zs) l) (append_assoc ys xs zs)
        (Perm.append (perm_append_comm xs ys) (Perm.refl zs)))

gather-Permᴰ : {xss yss : List (List DocRow)} → Permᴰ xss yss → Perm (gather xss) (gather yss)
unfolding gather
gather-Permᴰ Permᴰ.nil = Perm.refl []
gather-Permᴰ (Permᴰ.cons e d) = Perm.append (rw e (Perm.refl _)) (gather-Permᴰ d)
gather-Permᴰ (Permᴰ.swap {a' = x} {b' = y} {l = l} e f) = rw (e, f) (swap_front y x (gather l))
gather-Permᴰ (Permᴰ.trans d e) = Perm.trans (gather-Permᴰ d) (gather-Permᴰ e)

-- Whatever the order in which the workers send their rows, together they send the rows of one scan of
-- the whole list.
pub scan_all-Perm :
    (lib : Library) (revs : Map Bytes) (cpus : ℕ) (arrive : List (List DocRow) → List (List DocRow))
    (rng : DocRange) (all : List Record)
    → 0 < cpus
    → ((results : List (List DocRow)) → Perm (arrive results) results)
    → Perm (scan_all lib revs cpus arrive rng all) (scan lib revs rng all)
unfolding scan_all
scan_all-Perm lib revs cpus arrive rng all some_cpu permutes =
    let n = num_workers cpus all in
    let parts = chunks n 0 (chunk_size n all) all in
    let size = chunk_size n all in
    let enough : length all ≤ 0 * size + n * size =
      omega (arith, chunk_size-enough n all (num_workers-positive cpus all some_cpu)) in
    let zero_start : 0 * size ≡ 0 = omega arith in
    let whole : gather (map (scan lib revs rng) parts) ≡ scan lib revs rng all =
      gather-map lib revs rng parts
      ∙ ap (scan lib revs rng)
          (join-chunks n 0 size all enough ∙ ap (λ k. drop k all) zero_start) in
    subst (λ rows. Perm (scan_all lib revs cpus arrive rng all) rows) whole
      (∥∥₁_elim (permutes (map (scan lib revs rng) parts)) Perm-prop gather-Permᴰ)

length-Permᴰ : {xs ys : List DocRow} → Permᴰ xs ys → length xs ≡ length ys
length-Permᴰ Permᴰ.nil = refl
length-Permᴰ (Permᴰ.cons e d) = ap suc (length-Permᴰ d)
length-Permᴰ (Permᴰ.swap e f) = refl
length-Permᴰ (Permᴰ.trans d e) = length-Permᴰ d ∙ length-Permᴰ e

pub length-Perm : {xs ys : List DocRow} → Perm xs ys → length xs ≡ length ys
length-Perm p = ∥∥₁_elim p (ℕ_set _ _) length-Permᴰ
