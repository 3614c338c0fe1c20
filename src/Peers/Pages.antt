-- ===== src/Peers/Pages.antt =====
-- The loop over the pages in server/peer.go, when the peer is a server of server/main.go.
use nell_db.Base.{
  ℕ, zero, suc, ◌+◌, ◌<◌, ◌≤◌, ◌≡◌, refl, Bool, true, false, List, [], ◌∷◌, Has, not, ◌&&◌, ltb,
  length, filter, arith, Bool-cases, inl, inr,
}
use nell_db.Base.Int.{pos, ltb_ℤ}
use nell_db.Base.Bytes.{Bytes, lt_bytes}
use nell_db.Base.Map.{lookup}
use nell_db.Base.Result.{ok}
use nell_db.Hlc.{Hlc}
use nell_db.Record.{Record}
use nell_db.Knowledge.{KnowledgeVector, unseen}
use nell_db.Knowledge.Laws.{unseen-update, unseen-update_self}
use nell_db.Server.{
  Store, Server, CheckRequest, check_page, page, is_missing, is_empty, record_seen, to_limit, clamp,
}
use nell_db.Peers.{Peers}
use nell_db.Peers.Reconcile.{
  is_skipped, missing_of, goes_on, cursor_of, ingest_page, unless_error, pages, reconcile_one_inner,
  honest,
}

page-Has :
    (kv : KnowledgeVector) (limit : ℕ) (cursor : Bytes) (past : Bool) (count : ℕ) (rs : List Record)
    (x : Record)
    → Has x (page kv limit cursor past count rs)
    → Has x rs × (is_missing kv x ≡ true)
unfolding page
page-Has kv limit cursor past count [] x h = absurd h
page-Has kv limit cursor past count (r ∷ rs) x h =
    elim (Bool-cases (not past && not (lt_bytes cursor r.id))) [
      | inl a ↦ let (i, m) = page-Has kv limit cursor past count rs x (rw a at h) in (inr i, m)
      | inr a ↦ elim (Bool-cases (ltb count limit)) [
        | inr b ↦ absurd (rw (a, b) at h)
        | inl b ↦ elim (Bool-cases (is_missing kv r)) [
          | inl c ↦ elim (rw (a, b, c) at h) [
            | inl e ↦ (inl e, rw (← e) c)
            | inr g ↦ let (i, m) = page-Has kv limit cursor true (suc count) rs x g in (inr i, m)
          ]
          | inr c ↦
              let (i, m) = page-Has kv limit cursor true count rs x (rw (a, b, c) at h) in
              (inr i, m)
        ]
      ]
    ]

-- How many of the records a vector has not seen.
abbrev missing_count : KnowledgeVector → List Record → ℕ
missing_count kv all = length (filter (is_missing kv) all)

module _ (kv kv' : KnowledgeVector)
    (grows : (j : Bytes) (c : Hlc) → unseen kv j c ≡ false → unseen kv' j c ≡ false) where
  missing_count_le : (all : List Record) → missing_count kv' all ≤ missing_count kv all
  unfolding is_missing
  missing_count_le [] = omega arith
  missing_count_le (r ∷ rs) = elim (Bool-cases (unseen kv r.updated_by r.clock)) [
    | inr t ↦ rw (t, grows r.updated_by r.clock t) (missing_count_le rs)
    | inl t ↦ elim (Bool-cases (unseen kv' r.updated_by r.clock)) [
      | inl u ↦ rw (t, u) (omega (arith, missing_count_le rs))
      | inr u ↦ rw (t, u) (omega (arith, missing_count_le rs))
    ]
  ]

  missing_count_lt :
      (all : List Record) (x : Record)
      → Has x all
      → is_missing kv x ≡ true
      → is_missing kv' x ≡ false
      → missing_count kv' all < missing_count kv all
  unfolding is_missing
  missing_count_lt [] x h old new = absurd h
  missing_count_lt (r ∷ rs) x (inl e) old new =
      let was : unseen kv r.updated_by r.clock ≡ true = rw e old in
      let is : unseen kv' r.updated_by r.clock ≡ false = rw e new in
      rw (was, is) (omega (arith, missing_count_le rs))
  missing_count_lt (r ∷ rs) x (inr h) old new = elim (Bool-cases (unseen kv r.updated_by r.clock)) [
    | inr t ↦ rw (t, grows r.updated_by r.clock t) (missing_count_lt rs x h old new)
    | inl t ↦ elim (Bool-cases (unseen kv' r.updated_by r.clock)) [
      | inl u ↦ rw (t, u) (omega (arith, missing_count_lt rs x h old new))
      | inr u ↦ rw (t, u) (omega (arith, missing_count_lt rs x h old new))
    ]
  ]

full_page :
    (n : ℕ) (more named : Bool)
    → ((not (ltb n (to_limit (clamp (pos 0) (pos 100) (pos 10000)))) && more) && named) ≡ true
    → 0 < n
unfolding to_limit clamp ltb_ℤ
full_page n more named h = ground arith

module _ {S : Type 0} (ops : Store S) where
  page_stays_seen :
      (srv : Server S) (rs : List Record) (j : Bytes) (c : Hlc)
      → unseen srv.kv j c ≡ false
      → unseen (ingest_page ops srv rs).kv j c ≡ false
  unfolding ingest_page record_seen
  page_stays_seen srv [] j c h = h
  page_stays_seen srv (r ∷ rs) j c h =
      page_stays_seen (record_seen ops (record srv { store = (ops.put srv.store r).0 }) r) rs j c
        (unseen-update srv.kv r.updated_by j r.clock c h)

  first_becomes_seen :
      (srv : Server S) (r : Record) (rs : List Record)
      → unseen (ingest_page ops srv (r ∷ rs)).kv r.updated_by r.clock ≡ false
  unfolding ingest_page record_seen
  first_becomes_seen srv r rs =
      page_stays_seen (record_seen ops (record srv { store = (ops.put srv.store r).0 }) r) rs
        r.updated_by r.clock (unseen-update_self srv.kv r.updated_by r.clock)

  nonempty_decreases :
      (srv : Server S) (all missing : List Record)
      → ((x : Record) → Has x missing → Has x all × (is_missing srv.kv x ≡ true))
      → 0 < length missing
      → missing_count (ingest_page ops srv missing).kv all < missing_count srv.kv all
  nonempty_decreases srv all [] part some_record = absurd (omega arith)
  nonempty_decreases srv all (r ∷ rs) part some_record =
      let (there, old) = part r (inl refl) in
      missing_count_lt srv.kv (ingest_page ops srv (r ∷ rs)).kv (page_stays_seen srv (r ∷ rs)) all r
        there old (unfold is_missing in first_becomes_seen srv r rs)

  -- A page that says that there are more has records, and fewer are missing after it.
  page-decreases :
      (srv : Server S) (cursor : Bytes) (all : List Record)
      → goes_on (honest all (record { vector = srv.kv; limit = pos 0; cursor = cursor })) ≡ true
      → missing_count
          (ingest_page ops srv (
            missing_of
              (honest all (record { vector = srv.kv; limit = pos 0; cursor = cursor })))).kv
          all
        < missing_count srv.kv all
  unfolding goes_on missing_of check_page
  page-decreases srv cursor all more =
      let limit = to_limit (clamp (pos 0) (pos 100) (pos 10000)) in
      let missing = page srv.kv limit cursor (is_empty cursor) 0 all in
      nonempty_decreases srv all missing (page-Has srv.kv limit cursor (is_empty cursor) 0 all)
        (full_page (length missing) _ _ more)

  ends :
      (all : List Record) (fuel : ℕ) (srv : Server S) (n : ℕ) (cursor : Bytes)
      → missing_count srv.kv all < fuel
      → (k : ℕ) × ((pages ops fuel (honest all) srv n cursor).1 ≡ ok k)
  unfolding pages unless_error
  ends all zero srv n cursor h = absurd (omega arith)
  ends all (suc fuel) srv n cursor h =
      let req : CheckRequest = record { vector = srv.kv; limit = pos 0; cursor = cursor } in
      let res = honest all req in
      let srv' = ingest_page ops srv (missing_of res) in
      let n' = n + length (missing_of res) in
      elim (Bool-cases (goes_on res)) [
        | inr t ↦ (n', rw t refl)
        | inl t ↦
            let fewer = page-decreases srv cursor all t in
            let (k, e) = ends all fuel srv' n' (cursor_of res) (omega (arith, fewer, h)) in
            (k, rw t e)
      ]

  -- A reconciliation with a peer that is tracked as active, or not tracked, and that answers each check
  -- with the page that a server gives for its sorted records, ends without an error, after at most as
  -- many pages as the peer has records that this node had not seen, and one more.
  pub reconcile_ends :
      (all : List Record) (peers : Peers) (url : Bytes) (srv : Server S)
      → is_skipped (lookup url peers) ≡ false
      → (k : ℕ) × ((reconcile_one_inner ops
            (suc (length (filter (is_missing srv.kv) all)))
            (honest all)
            peers
            url
            srv).1
          ≡ ok k)
  unfolding reconcile_one_inner
  reconcile_ends all peers url srv tracked =
      let (k, e) = ends all (suc (missing_count srv.kv all)) srv 0 [] (omega arith) in
      (k, rw tracked e)
