-- ===== src/DocDb/Listing.antt =====
-- What `AllDocs` of sdk/docdb.go returns for a range.
use mathlib.Core.List.{Perm}
use nell_db.Base.{
  ℕ, ◌≡◌, ◌∙◌, ◌≤◌, ◌<◌, ◌↔◌, refl, ap, Bool, true, false, List, [], ◌∷◌, ◌++◌, not, ltb, length,
  if◌then◌else◌, ◌||◌, arith, Bool-cases, lt→ltb, inl, inr, Has, length-take_le, map, filter, ◌&&◌,
}
use nell_db.Base.Int.{ℤ, pos, ltb_ℤ}
use nell_db.Base.Map.{Map}
use nell_db.Base.Bytes.{Bytes}
use nell_db.Base.Result.{Result, ok, err}
use nell_db.Record.{Record}
use nell_db.Doc.{Library}
use nell_db.DocDb.Engine.{Store, StoreError, not_found, failed}
use nell_db.DocDb.{DocDb, DocError, get, got}
use nell_db.DocDb.Rows.{
  DocRow, DocRange, AllDocsResult, scan, scan_all, make_row, in_range, page_of, all_listed,
  all_docs, rows_of_keys, row_of_key, apply_skip, apply_limit, to_nat,
}
use nell_db.DocDb.Chunks.{scan_all-Perm, length-Perm}

-- A row stands for a record that is live and in range.
unfoldable pub IsRowOf : Library → Map Bytes → DocRange → Record → DocRow → Type 0
IsRowOf lib revs rng rec row =
    (rec.deleted ≡ false)
    × (in_range rng rec.id ≡ true)
    × (make_row lib revs rng.include_docs rec.id rec ≡ row)

module _ (lib : Library) (revs : Map Bytes) (rng : DocRange) where
  IsRowOf-tests :
      (rec : Record) (row : DocRow)
      → IsRowOf lib revs rng rec row
      → (rec.deleted || not (in_range rng rec.id)) ≡ false
  unfolding IsRowOf
  IsRowOf-tests rec row h = rw (h.0, h.1) refl

  pub Has-scan :
      (all : List Record) (row : DocRow)
      → Has row (scan lib revs rng all)
        ↔ ((rec : Record) × Has rec all × IsRowOf lib revs rng rec row)
  unfolding scan
  Has-scan [] row = ((λ h. absurd h), (λ h. absurd h.1))
  Has-scan (x ∷ xs) row = elim (Bool-cases (x.deleted || not (in_range rng x.id))) [
    | inl t ↦ rw t (
      (λ h. let (rec, there, r) = (Has-scan xs row).0 h in (rec, inr there, r)),
      (λ h. elim h.1 [
        | inl e ↦
            absurd
              (cc (IsRowOf-tests h.0 row h.2, t, ap (λ r. r.deleted || not (in_range rng r.id)) e))
        | inr there ↦ (Has-scan xs row).1 (h.0, there, h.2)
      ]),
    )
    | inr t ↦ rw t (
      (λ h. elim h [
        | inl e ↦ (x, inl refl, (unfold IsRowOf in (ground arith, ground arith, e)))
        | inr there ↦ let (rec, found, r) = (Has-scan xs row).0 there in (rec, inr found, r)
      ]),
      (λ h. elim h.1 [
        | inl e ↦
            inl (ap (λ r. make_row lib revs rng.include_docs r.id r) e ∙ (unfold IsRowOf in h.2.2))
        | inr there ↦ inr ((Has-scan xs row).1 (h.0, there, h.2))
      ]),
    )
  ]

length-apply_limit :
    (limit : ℤ) (rows : List DocRow)
    → ltb_ℤ (pos 0) limit ≡ true
    → length (apply_limit limit rows) ≤ to_nat limit
unfolding apply_limit
length-apply_limit limit rows positive =
    rw positive (elim (Bool-cases (ltb (to_nat limit) (length rows))) [
      | inl t ↦ rw t (let e = length-take_le (to_nat limit) rows (ground arith) in omega (arith, e))
      | inr t ↦ rw t (ground arith)
    ])

abbrev pub is_ok : {A : Type 0} → Result DocError A → Bool
is_ok (ok a) = true
is_ok (err e) = false

module _ {S : Type 0} (ops : Store S) (lib : Library) where
  -- `AllDocs` without `Keys`, with any number of workers that send their rows in any order:
  -- the total is the number of rows that one scan of the whole collection gives, and the rows are
  -- those of that scan in some order, cut by the range's skip and limit; a limit bounds
  -- their number.
  pub all_docs-scan :
      (cpus : ℕ) (arrive : List (List DocRow) → List (List DocRow)) (rng : DocRange) (d : DocDb S)
      (all : List Record)
      → 0 < cpus
      → ((results : List (List DocRow)) → Perm (arrive results) results)
      → rng.keys ≡ []
      → ops.list d.store d.collection ≡ ok all
      → (res : AllDocsResult) × (all_docs ops lib false cpus arrive rng d ≡ ok res)
        × (res.total_rows ≡ length (scan lib d.revs rng all))
        × (rows : List DocRow) × Perm rows (scan lib d.revs rng all)
        × (res.rows ≡ apply_limit rng.limit (apply_skip rng.skip rows))
        × (ltb_ℤ (pos 0) rng.limit ≡ true → length res.rows ≤ to_nat rng.limit)
  unfolding all_docs all_listed page_of
  all_docs-scan cpus arrive rng d all some_cpu permutes no_keys listed =
      let rows = scan_all lib d.revs cpus arrive rng all in
      let same = scan_all-Perm lib d.revs cpus arrive rng all some_cpu permutes in
      (
        page_of rng rows,
        rw (no_keys, listed) refl,
        length-Perm same,
        rows,
        same,
        refl,
        (λ positive. length-apply_limit rng.limit (apply_skip rng.skip rows) positive),
      )

  key_row :
      (now : ℕ → ℤ) (d : DocDb S) (rng : DocRange) (id : Bytes) (o : Result StoreError Record)
      (rest : List DocRow)
      → map (λ r. r.id) (row_of_key lib d.revs rng id o ++ rest)
        ≡ (if is_ok (got ops lib now id o) then id ∷ map (λ r. r.id) rest else map (λ r. r.id) rest)
  unfolding row_of_key got make_row
  key_row now d rng id (err not_found) rest = refl
  key_row now d rng id (err (failed e)) rest = refl
  key_row now d rng id (ok rec) rest = ground arith

  rows_of_keys-get :
      (now : ℕ → ℤ) (d : DocDb S) (rng : DocRange) (ids : List Bytes)
      → map (λ r. r.id) (rows_of_keys ops lib d rng ids)
        ≡ filter (λ id. in_range rng id && is_ok (get ops lib now false id d)) ids
  unfolding rows_of_keys get
  rows_of_keys-get now d rng [] = refl
  rows_of_keys-get now d rng (id ∷ ids) = elim (Bool-cases (in_range rng id)) [
    | inl t ↦ rw t (
        key_row now d rng id (ops.get d.store d.collection id) (rows_of_keys ops lib d rng ids)
        ∙ rw (rows_of_keys-get now d rng ids) refl)
    | inr t ↦ rw t (rows_of_keys-get now d rng ids)
  ]

  -- `AllDocs` of a list of keys: the rows are those keys, in their order, that are in the range
  -- and that `Get` finds a document for.
  pub all_docs-keys :
      (cpus : ℕ) (arrive : List (List DocRow) → List (List DocRow)) (now : ℕ → ℤ) (rng : DocRange)
      (d : DocDb S)
      → 0 < length rng.keys
      → (res : AllDocsResult) × (all_docs ops lib false cpus arrive rng d ≡ ok res)
        × (map (λ r. r.id) res.rows
            ≡ filter (λ id. in_range rng id && is_ok (get ops lib now false id d)) rng.keys)
        × (res.total_rows ≡ length res.rows)
  unfolding all_docs
  all_docs-keys cpus arrive now rng d some_key =
      let rows = rows_of_keys ops lib d rng rng.keys in
      (
        record { total_rows = length rows; offset = 0; rows = rows },
        rw (lt→ltb 0 (length rng.keys) some_key) refl,
        rows_of_keys-get now d rng rng.keys,
        refl,
      )
