-- ===== src/LogStore/Compaction.antt =====
-- `Compact` of logstore/log.go: what it keeps, that the compacted store is as sound as before, and that
-- its new log holds it.
use nell_db.Base.{
  ◌≡◌, ◌↔◌, refl, sym, ap, ◌∙◌, Bool, true, false, Option, none, some, List, [], ◌∷◌, ◌++◌, All,
  Has, arith, append-nil, if◌then◌else◌, Bool-cases, inl, inr, ◌&&◌,
}
use nell_db.Base.Int.{ℤ}
use nell_db.Base.Bytes.{Bytes, eqb, eqb→eq, eqb_refl, eqb_iff}
use nell_db.Base.Map.{Map, lookup, Distinct, Has-lookup, lookup-Has}
use nell_db.Record.{Record}
use nell_db.Knowledge.{unseen}
use nell_db.Knowledge.Laws.{unseen-update, unseen-update_self}
use nell_db.MemoryStore.{with_collection, list}
use nell_db.MemoryStore.Index.{indexed, indexed-index_key}
use nell_db.MemoryStore.Put.{key_of, merge}
use nell_db.MemoryStore.Invariant.{IsValid}
use nell_db.MemoryStore.Winner.{winner_at}
use nell_db.LogStore.{
  Zstd, LogStore, frame, CompactFault, flush_fault, create_fault, write_fault, rename_fault,
  is_old_tombstone, keep_records, log_of_map, index_all, know_all, compact_open, compact,
}
use nell_db.LogStore.Frames.{Writable, log_of}
use nell_db.MemoryStore.Listing.{list_exact}
use nell_db.LogStore.Recovery.{Logged, Logged-write_out, with_collection-named}

-- The faults of `Compact` at a step after its flush.
unfoldable pub is_after_flush : CompactFault → Bool
is_after_flush (flush_fault n) = false
is_after_flush create_fault = true
is_after_flush write_fault = true
is_after_flush rename_fault = true

-- The records of a map.
unfoldable pub values : Map Record → List Record
values [] = []
values ((k, r) ∷ m) = r ∷ values m

pub Has-values : (r : Record) (m : Map Record) → Has r (values m) → (k : Bytes) × Has (k, r) m
unfolding values
Has-values r [] h = absurd h
Has-values r ((k, x) ∷ m) (inl e) = (k, inl (ap (λ y. (k, y)) e))
Has-values r ((k, x) ∷ m) (inr h) = let (j, g) = Has-values r m h in (j, inr g)

lookup-keep_records :
    (cutoff : ℤ) (k : Bytes) (m : Map Record)
    → Distinct m
    → (r : Record)
    → (lookup k (keep_records cutoff m) ≡ some r)
      ↔ (lookup k m ≡ some r) × (is_old_tombstone cutoff r ≡ false)
unfolding lookup keep_records
lookup-keep_records cutoff k [] d r = ground arith
lookup-keep_records cutoff k ((j, x) ∷ m) (fresh, d) r =
    ground (arith, lookup-keep_records cutoff k m d r, eqb_iff j k, fresh)

keep_records-Distinct :
    (cutoff : ℤ) (m : Map Record) → Distinct m → Distinct (keep_records cutoff m)
unfolding keep_records
keep_records-Distinct cutoff [] d = tt
keep_records-Distinct cutoff ((j, x) ∷ m) (fresh, d) =
    elim (Bool-cases (is_old_tombstone cutoff x)) [
      | inl e ↦ rw e (keep_records-Distinct cutoff m d)
      | inr e ↦
          rw e (absent (lookup j (keep_records cutoff m)) refl, keep_records-Distinct cutoff m d)
    ]
  where
    absent :
        (o : Option Record)
        → lookup j (keep_records cutoff m) ≡ o
        → lookup j (keep_records cutoff m) ≡ none
    absent none e = e
    absent (some r) e = let (p, _) = (lookup-keep_records cutoff j m d r).0 e in cc (fresh)

indexed-index_all :
    (c k : Bytes) (m : Map Record) (r : Record)
    → Has (k, r) m
    → indexed (index_all m) r.collection k ≡ true
unfolding index_all
indexed-index_all c k [] r h = absurd h
indexed-index_all c k ((j, x) ∷ m) r (inl e) =
    rw
      (
        indexed-index_key j k x.collection r.collection (index_all m),
        ap (λ p. p.0) e,
        ap (λ (p : Bytes × Record). p.1.collection) e,
        eqb_refl k,
        eqb_refl r.collection,
      )
      refl
indexed-index_all c k ((j, x) ∷ m) r (inr h) = ground (
  arith,
  indexed-index_key j k x.collection r.collection (index_all m),
  indexed-index_all c k m r h,
)

index_all-Has :
    (c k : Bytes) (m : Map Record)
    → indexed (index_all m) c k ≡ true
    → (r : Record) × Has (k, r) m × (r.collection ≡ c)
unfolding index_all
index_all-Has c k [] h = unfold indexed lookup in absurd (cc (h))
index_all-Has c k ((j, x) ∷ m) h = elim (Bool-cases (eqb x.collection c && eqb j k)) [
  | inl e ↦ (
    x,
    inl (ap (λ i. (i, x)) (eqb→eq j k (ground (arith, e)))),
    eqb→eq x.collection c (ground (arith, e)),
  )
  | inr e ↦
      let (r, g, p) =
        index_all-Has c k m
          (ground (arith, e, indexed-index_key j k x.collection c (index_all m))) in
      (r, inr g, p)
]

know_all-seen :
    (k : Bytes) (m : Map Record) (r : Record)
    → Has (k, r) m
    → unseen (know_all m) r.updated_by r.clock ≡ false
unfolding know_all
know_all-seen k [] r h = absurd h
know_all-seen k ((j, x) ∷ m) r (inl e) =
    rw (ap (λ (p : Bytes × Record). p.1) e) (unseen-update_self (know_all m) r.updated_by r.clock)
know_all-seen k ((j, x) ∷ m) r (inr h) =
    unseen-update (know_all m) x.updated_by r.updated_by x.clock r.clock (know_all-seen k m r h)

-- Each record stands under its own key.
Keyed : Map Record → Type 0
Keyed m = (k : Bytes) (r : Record) → Has (k, r) m → (with_collection r ≡ r) × (key_of r ≡ k)

winner_at-other :
    (k : Bytes) (o : Option Record) (rs : List Record)
    → ((r : Record) → Has r rs → eqb (key_of r) k ≡ false)
    → winner_at k o rs ≡ o
unfolding winner_at
winner_at-other k o [] h = refl
winner_at-other k o (r ∷ rs) h = rw (h r (inl refl)) (winner_at-other k o rs (λ x g. h x (inr g)))

lookup-values :
    (k : Bytes) (m : Map Record) → Distinct m → Keyed m → lookup k m ≡ winner_at k none (values m)
unfolding lookup winner_at values Keyed
lookup-values k [] d keyed = refl
lookup-values k ((j, r) ∷ m) (fresh, d) keyed =
    let (stored, here) = keyed j r (inl refl) in
    elim (Bool-cases (eqb j k)) [
      | inl e ↦
          first
          ∙ rw e (sym (winner_at-other k (some r) (values m) (apart e)))
          ∙ ap (λ o. winner_at k o (values m)) (kept stored (rw here e))
          ∙ sym second
      | inr e ↦
          first
          ∙ rw e (lookup-values k m d (λ i x h. keyed i x (inr h)))
          ∙ ap (λ o. winner_at k o (values m)) (passed (rw here e))
          ∙ sym second
    ]
  where
    first : lookup k ((j, r) ∷ m) ≡ (if eqb j k then some r else lookup k m)
    first = refl

    step : Option Record
    step = if eqb (key_of r) k then some (merge none (with_collection r)) else none

    second : winner_at k none (values ((j, r) ∷ m)) ≡ winner_at k step (values m)
    second = refl

    kept : with_collection r ≡ r → eqb (key_of r) k ≡ true → some r ≡ step
    kept stored e = rw e (unfold merge in ap some (sym stored))

    passed : eqb (key_of r) k ≡ false → none ≡ step
    passed e = rw e refl

    apart : eqb j k ≡ true → (x : Record) → Has x (values m) → eqb (key_of x) k ≡ false
    apart e x h =
        let (i, g) = Has-values x m h in
        let (_, under) = keyed i x (inr g) in
        rw under (elim (Bool-cases (eqb i k)) [
          | inl f ↦
              let p : i ≡ j = eqb→eq i k f ∙ sym (eqb→eq j k e) in
              let q : lookup j m ≡ some x = rw p at (lookup-Has i x m d g) in cc (fresh)
          | inr f ↦ f
        ])

pub All-Has {κ} :
    (P : Record → Type κ) (rs : List Record) → ((r : Record) → Has r rs → P r) → All P rs
All-Has P [] h = tt
All-Has P (r ∷ rs) h = (h r (inl refl), All-Has P rs (λ x g. h x (inr g)))

log_of_map-values : (z : Zstd) (m : Map Record) → log_of_map z m ≡ log_of z (values m)
unfolding log_of_map log_of values
log_of_map-values z [] = refl
log_of_map-values z ((k, r) ∷ m) = ap (λ b. frame z r ++ b) (log_of_map-values z m)

module _ (z : Zstd) (cutoff : ℤ) (ls : LogStore) (rs : List Record) (g : Logged z ls rs) where
  abbrev keep : Map Record
  keep = keep_records cutoff ls.mem.records

  abbrev compacted : LogStore
  compacted = (compact_open z cutoff none ls).0

  kept : (k : Bytes) (r : Record) → lookup k keep ≡ some r → lookup k ls.mem.records ≡ some r
  kept k r e = ((lookup-keep_records cutoff k ls.mem.records g.valid.distinct r).0 e).0

  keep-Distinct : Distinct keep
  keep-Distinct = keep_records-Distinct cutoff ls.mem.records g.valid.distinct

  kept-Has : (k : Bytes) (r : Record) → Has (k, r) keep → lookup k ls.mem.records ≡ some r
  kept-Has k r h = kept k r (lookup-Has k r keep keep-Distinct h)

  keep-Keyed : Keyed keep
  unfolding Keyed
  keep-Keyed k r h =
      let st = g.valid.stored k r (kept-Has k r h) in
      let p = with_collection-named r st.named in (p, rw p (sym st.keyed))

  compact-IsValid : IsValid compacted.mem
  unfolding compact_open
  compact-IsValid = record {
    distinct = keep-Distinct;
    stored = λ k r e.
        let st = g.valid.stored k r (kept k r e) in
        let h = Has-lookup k r keep e in
        record {
          keyed = st.keyed;
          plain = st.plain;
          named = st.named;
          in_index = indexed-index_all r.collection k keep r h;
          known = know_all-seen k keep r h;
          behind = st.behind;
        };
    sound = λ c k h.
        let (r, i, p) = index_all-Has c k keep h in (r, lookup-Has k r keep keep-Distinct i, p);
    fresh = λ e. cc (e);
  }

  pub compact-open :
      (fault : Option CompactFault) → compact z cutoff fault ls ≡ compact_open z cutoff fault ls
  unfolding compact
  compact-open fault = rw g.clean refl

  pub compact-Logged : Logged z compacted (values keep)
  unfolding compact_open
  compact-Logged = record {
    bytes = append-nil (log_of_map z keep) ∙ log_of_map-values z keep;
    clean = g.clean;
    flushed = λ e. refl;
    writable =
        All-Has (Writable z) (values keep)
          (λ r h. let (k, i) = Has-values r keep h in g.fits k r (kept-Has k r i));
    records = λ k. lookup-values k keep keep-Distinct keep-Keyed;
    fits = λ k r e. g.fits k r (kept k r e);
    valid = compact-IsValid;
  }

  -- Documents that are not tombstones stay listed.
  list-compact : (c : Bytes) (r : Record) → Has r (list compacted.mem c) ↔ Has r (list ls.mem c)
  list-compact c r = (
    (λ h.
        let (k, e, p, d) = (list_exact compacted.mem c r compact-IsValid).0 h in
        (list_exact ls.mem c r g.valid).1 k (kept k r (unfold compact_open in e)) p d),
    (λ h.
        let (k, e, p, d) = (list_exact ls.mem c r g.valid).0 h in
        (list_exact compacted.mem c r compact-IsValid).1 k (alive k e d) p d),
  )
    where
      alive :
          (k : Bytes)
          → lookup k ls.mem.records ≡ some r
          → r.deleted ≡ false
          → lookup k compacted.mem.records ≡ some r
      alive k e d =
          unfold compact_open in
          (lookup-keep_records cutoff k ls.mem.records g.valid.distinct r).1
            (e, unfold is_old_tombstone in rw d refl)

  pub Logged-fault :
      (fault : CompactFault)
      → is_after_flush fault ≡ true
      → Logged z (compact_open z cutoff (some fault) ls).0 rs
  unfolding compact_open is_after_flush
  Logged-fault (flush_fault n) after = absurd (cc (after))
  Logged-fault create_fault after = Logged-write_out z ls rs g
  Logged-fault write_fault after = Logged-write_out z ls rs g
  Logged-fault rename_fault after = Logged-write_out z ls rs g

  pub compact_kept :
      ((k : Bytes) (r : Record)
        → (lookup k compacted.mem.records ≡ some r)
          ↔ (lookup k ls.mem.records ≡ some r) × (is_old_tombstone cutoff r ≡ false))
      × ((c : Bytes) (r : Record) → Has r (list compacted.mem c) ↔ Has r (list ls.mem c))
  compact_kept = (
    (λ k r. unfold compact_open in lookup-keep_records cutoff k ls.mem.records g.valid.distinct r),
    list-compact,
  )
