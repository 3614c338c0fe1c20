-- ===== src/MemoryStore/Changes.antt =====
-- `GetChangesSince` of store.go returns the records that are newer than the bound, in clock order.
pub mod Order
pub mod Search
pub mod Collect
use nell_db.Base.{
  ℕ, zero, suc, ◌≤◌, ◌<◌, ◌≡◌, refl, sym, ap, ◌∙◌, Bool, true, false, Option, none, some, List, [],
  ◌∷◌, arith, inl, inr, Has, All, length, get_elem?, get_elem?_of_lt, drop, filter, if◌then◌else◌,
  Bool-cases, ◌&&◌, ◌||◌,
}
use nell_db.Base.Int.{ltb_ℤ, eqb_ℤ}
use nell_db.Base.Bytes.{Bytes, lt_bytes}
use nell_db.Base.Filter.{Has-filter, filter-Has, All-filter, holds_at, drop-filter}
use nell_db.Base.Sort.{
  sort, Sorted, Sorted-filter, sort-Sorted, Has-sort, sort-Has, search_index, IsBoundary,
  search_index-IsBoundary,
}
use nell_db.Base.Map.{Map, lookup, Distinct, Has-lookup, lookup-Has}
use nell_db.Record.{Record}
use nell_db.Hlc.{Hlc, greater_than}
use nell_db.Hlc.Order.{le_greater_than_trans, greater_than_irrefl}
use nell_db.MemoryStore.{
  rebuild_changes_index, ensure_index, get_changes_since, MemoryStore, ClockKey, clock_keys,
  append_found, collect, clock_key_less, entry_after, after_since,
}
use nell_db.MemoryStore.Changes.Order.{clock_key_less-asymm, clock_key_less-trans_not, less→le}
use nell_db.MemoryStore.Changes.Search.{is_after, drop-search_index}
use nell_db.MemoryStore.Changes.Collect.{
  Has-clock_keys, clock_keys-Has, Has-collect, collect-Has, Faithful, Ascending, collect-Ascending,
}
use nell_db.MemoryStore.Invariant.{IsValid}

-- The index that a rebuild makes.
abbrev full_index : Map Record → List ClockKey
full_index m = sort clock_key_less (clock_keys m)

full_index-Sorted : (m : Map Record) → Sorted clock_key_less (full_index m)
full_index-Sorted m =
    sort-Sorted clock_key_less clock_key_less-asymm clock_key_less-trans_not (clock_keys m)

-- On a valid store the records that `GetChangesSince` returns are read off the whole index.
get_changes_since-collect :
    (s : MemoryStore) (since : Hlc)
    → IsValid s
    → (get_changes_since s since).1
      ≡ collect s.records (filter (is_after since) (full_index s.records))
unfolding get_changes_since ensure_index rebuild_changes_index
get_changes_since-collect s since v = go s.changes_dirty refl
  where
    read : List ClockKey → List Record
    read idx = collect s.records (drop (search_index (length idx) (after_since since idx)) idx)

    read_of : MemoryStore → List Record
    read_of t =
        collect t.records (
          drop (search_index (length t.changes_idx) (after_since since t.changes_idx))
            t.changes_idx)

    result : List Record
    result = collect s.records (filter (is_after since) (full_index s.records))

    read_full : read (full_index s.records) ≡ result
    read_full =
        ap (collect s.records)
          (drop-search_index since (full_index s.records) (full_index-Sorted s.records))

    go :
        (b : Bool)
        → s.changes_dirty ≡ b
        → read_of (if b then rebuild_changes_index s else s) ≡ result
    go true e = read_full
    go false e = ap read (v.fresh e) ∙ read_full

full_index-Faithful : (m : Map Record) → Distinct m → Faithful m (full_index m)
full_index-Faithful m d = every (full_index m) (λ ck h. h)
  where
    entry :
        (ck : ClockKey)
        → Has ck (full_index m)
        → (r : Record) × (lookup ck.key m ≡ some r) × (r.clock ≡ ck.clock)
    entry ck h =
        let (r, g, e) = clock_keys-Has ck m (sort-Has clock_key_less ck (clock_keys m) h) in
        (r, lookup-Has ck.key r m d g, e)

    every :
        (cks : List ClockKey)
        → ((ck : ClockKey) → Has ck cks → Has ck (full_index m))
        → Faithful m cks
    every [] sub = tt
    every (ck ∷ cks) sub = (entry ck (sub ck (inl refl)), every cks (λ x h. sub x (inr h)))

-- On a valid store `GetChangesSince` returns exactly the stored records whose clock is greater than
-- the bound: each is returned, nothing else is, and they come in ascending order of their clocks. The
-- store's records are left as they were.
pub get_changes_since_exact :
    (s : MemoryStore) (since : Hlc)
    → IsValid s
    → ((k : Bytes) (r : Record)
        → lookup k s.records ≡ some r
        → greater_than r.clock since ≡ true
        → Has r (get_changes_since s since).1)
      × ((r : Record)
          → Has r (get_changes_since s since).1
          → (k : Bytes) × (lookup k s.records ≡ some r) × (greater_than r.clock since ≡ true))
      × Ascending (get_changes_since s since).1
      × ((get_changes_since s since).0.records ≡ s.records)
get_changes_since_exact s since v =
    rw (get_changes_since-collect s since v)
      (complete, sound, collect-Ascending s.records kept kept-Sorted kept-Faithful, same)
  where
    m : Map Record
    m = s.records

    kept : List ClockKey
    kept = filter (is_after since) (full_index m)

    kept-Faithful : Faithful m kept
    kept-Faithful = All-filter (is_after since) _ (full_index m) (full_index-Faithful m v.distinct)

    kept-Sorted : Sorted clock_key_less kept
    kept-Sorted = Sorted-filter clock_key_less (is_after since) (full_index m) (full_index-Sorted m)

    complete :
        (k : Bytes) (r : Record)
        → lookup k m ≡ some r
        → greater_than r.clock since ≡ true
        → Has r (collect m kept)
    complete k r e after =
        let ck : ClockKey = record { clock = r.clock; key = k } in
        Has-collect r ck m kept
          (Has-filter (is_after since) ck (full_index m)
            (Has-sort clock_key_less ck (clock_keys m) (Has-clock_keys k r m (Has-lookup k r m e)))
            after)
          e

    sound :
        (r : Record)
        → Has r (collect m kept)
        → (k : Bytes) × (lookup k m ≡ some r) × (greater_than r.clock since ≡ true)
    sound r h =
        let (ck, g, e) = collect-Has r m kept h in
        let (i, after) = filter-Has (is_after since) ck (full_index m) g in
        let (q, j, f) = clock_keys-Has ck m (sort-Has clock_key_less ck (clock_keys m) i) in
        let same : some q ≡ some r = sym (lookup-Has ck.key q m v.distinct j) ∙ e in
        let p : q ≡ r = cc in (ck.key, e, rw (← p, f) after)

    same : (get_changes_since s since).0.records ≡ m
    same = unfold get_changes_since ensure_index rebuild_changes_index in ground arith
