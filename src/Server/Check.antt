-- ===== src/Server/Check.antt =====
-- The JSON endpoints of server/main.go: the first page of `handleCheck`, and `handlePull`.
use nell_db.Base.{
  ℕ, zero, suc, ◌-◌, ◌<◌, ◌≡◌, refl, sym, ap, ◌∙◌, Bool, true, false, some, List, [], ◌∷◌, Has,
  length, take, filter, max, min, arith, Bool-cases, inl, inr, ltb, ltb→lt, lt→ltb,
}
use nell_db.Base.Int.{ℤ, pos, negsuc, ltb_ℤ}
use nell_db.Base.Bytes.{Bytes, eqb, eqb→eq, eqb_refl}
use nell_db.Base.Map.{lookup}
use nell_db.Base.Result.{ok, err}
use nell_db.Base.Filter.{Has-filter, filter-Has}
use nell_db.Hlc.{Hlc, greater_than}
use nell_db.Record.{Record}
use nell_db.Knowledge.{KnowledgeVector}
use nell_db.MemoryStore
use nell_db.MemoryStore.{MemoryStore, collection_or_default}
use nell_db.MemoryStore.Invariant.{IsValid}
use nell_db.MemoryStore.Changes.{get_changes_since_exact}
use nell_db.Server.{
  Server, method_not_allowed, bad_request, request_too_large, Body, decoded, malformed, too_large,
  refuse, body_error, memory_store, is_missing, page, clamp, to_limit, is_empty, check_page,
  handle_pull,
}

page-take :
    (kv : KnowledgeVector) (limit : ℕ) (cursor : Bytes) (count : ℕ) (rs : List Record)
    → page kv limit cursor true count rs ≡ take (limit - count) (filter (is_missing kv) rs)
unfolding page
page-take kv limit cursor count [] = sym (take_nil (limit - count))
  where
    take_nil : (n : ℕ) → take {A = Record} n [] ≡ []
    take_nil zero = refl
    take_nil (suc n) = refl
page-take kv limit cursor count (r ∷ rs) = elim (Bool-cases (ltb count limit)) [
  | inl e ↦ elim (Bool-cases (is_missing kv r)) [
    | inl m ↦
        let next : limit - count ≡ suc (limit - suc count) = omega (arith, ltb→lt count limit e) in
        rw (e, m, next) (ap (◌∷◌ r) (page-take kv limit cursor (suc count) rs))
    | inr m ↦ rw (e, m) (page-take kv limit cursor count rs)
  ]
  | inr e ↦ let none_left : limit - count ≡ 0 = ground (arith, e) in rw (e, none_left) refl
]

-- The limit that is asked for, raised to 100 and lowered to 10000.
unfoldable pub limit_of : ℤ → ℕ
limit_of (pos n) = max 100 (min n 10000)
limit_of (negsuc n) = 100

clamp-limit_of : (v : ℤ) → to_limit (clamp v (pos 100) (pos 10000)) ≡ limit_of v
unfolding clamp to_limit ltb_ℤ limit_of
clamp-limit_of (pos n) = ground arith
clamp-limit_of (negsuc n) = ground arith

length-take_lt : (n : ℕ) (rs : List Record) → length rs < n → length (take n rs) ≡ length rs
length-take_lt zero rs h = absurd (omega arith)
length-take_lt (suc n) [] h = refl
length-take_lt (suc n) (r ∷ rs) h = ap suc (length-take_lt n rs (omega arith))

-- The first page of a check: a request with no cursor is answered with the first records of the sorted
-- collection that its vector has not seen, as many as the limit that it asks for, where a limit below 100
-- counts as 100 and one above 10000 as 10000. When fewer than that are missing, the page says that there
-- are no more and names no cursor.
pub check_page_first :
    (vector : KnowledgeVector) (asked : ℤ) (all : List Record)
    → ((check_page (record { vector = vector; limit = asked; cursor = [] }) all).missing_changes
        ≡ take (limit_of asked) (filter (is_missing vector) all))
      × (length (filter (is_missing vector) all) < limit_of asked
          → ((check_page (record { vector = vector; limit = asked; cursor = [] }) all).has_more
              ≡ false)
            × ((check_page (record { vector = vector; limit = asked; cursor = [] }) all).next_cursor
                ≡ []))
unfolding check_page is_empty
check_page_first vector asked all = (
  rw (clamp-limit_of asked) first,
  (λ few.
      rw
        (
          clamp-limit_of asked,
          first,
          length-take_lt limit (filter (is_missing vector) all) few,
          lt→ltb (length (filter (is_missing vector) all)) limit few,
        )
        (refl, refl)),
)
  where
    limit : ℕ
    limit = limit_of asked

    first : page vector limit [] true 0 all ≡ take limit (filter (is_missing vector) all)
    first =
        page-take vector limit [] 0 all
        ∙ ap (λ n. take n (filter (is_missing vector) all)) (omega arith)

-- `handlePull` on a server with a valid store answers with exactly the records of the collection, a
-- missing name standing for the default one, whose clocks are greater than the bound, and leaves the
-- stored records as they are. With another method, with a body that does not decode and with one that is
-- too large it answers the error of each, and the server stays as it is.
pub handle_pull_exact :
    (srv : Server MemoryStore) (col : Bytes) (since : Hlc)
    → IsValid srv.store
    → ((changes : List Record) × ((handle_pull memory_store srv true col (decoded since)).1
          ≡ ok changes)
        × ((k : Bytes) (r : Record)
            → lookup k srv.store.records ≡ some r
            → r.collection ≡ collection_or_default col
            → greater_than r.clock since ≡ true
            → Has r changes)
        × ((r : Record)
            → Has r changes
            → (k : Bytes) × (lookup k srv.store.records ≡ some r)
              × (r.collection ≡ collection_or_default col)
              × (greater_than r.clock since ≡ true)))
      × ((handle_pull memory_store srv true col (decoded since)).0.store.records
          ≡ srv.store.records)
      × ((body : Body Hlc)
          → handle_pull memory_store srv false col body ≡ (srv, err method_not_allowed))
      × (handle_pull memory_store srv true col malformed ≡ (srv, err bad_request))
      × (handle_pull memory_store srv true col too_large ≡ (srv, err request_too_large))
unfolding handle_pull refuse body_error
handle_pull_exact srv col since v =
    let (complete, sound, _, same) = get_changes_since_exact srv.store since v in
    (
      (
        filter in_col (MemoryStore.get_changes_since srv.store since).1,
        refl,
        (λ k r e c g.
            Has-filter in_col r _ (complete k r e g) (rw c (eqb_refl (collection_or_default col)))),
        (λ r h.
            let (i, c) = filter-Has in_col r _ h in
            let (k, e, g) = sound r i in (k, e, eqb→eq r.collection _ c, g)),
      ),
      same,
      refused,
      refl,
      refl,
    )
  where
    in_col : Record → Bool
    in_col r = eqb r.collection (collection_or_default col)

    refused :
        (body : Body Hlc)
        → handle_pull memory_store srv false col body ≡ (srv, err method_not_allowed)
    refused malformed = refl
    refused too_large = refl
    refused (decoded since) = refl
