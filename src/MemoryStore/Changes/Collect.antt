-- ===== src/MemoryStore/Changes/Collect.antt =====
-- The loop of `GetChangesSince` over the entries of the index.
use nell_db.Base.{
  ◌≡◌, ◌⊎◌, refl, ap, false, Option, none, some, List, [], ◌∷◌, arith, inl, inr, Has, All,
}
use nell_db.Base.Bytes.{Bytes}
use nell_db.Base.Sort.{Sorted}
use nell_db.Base.Map.{Map, lookup}
use nell_db.Record.{Record}
use nell_db.Hlc.{greater_than}
use nell_db.MemoryStore.{ClockKey, clock_keys, append_found, collect, clock_key_less}
use nell_db.MemoryStore.Changes.Order.{less→le}

pub Has-clock_keys :
    (k : Bytes) (r : Record) (m : Map Record)
    → Has (k, r) m
    → Has (record { clock = r.clock; key = k }) (clock_keys m)
unfolding clock_keys
Has-clock_keys k r [] h = absurd h
Has-clock_keys k r ((j, x) ∷ m) (inl e) = inl (ground arith)
Has-clock_keys k r ((j, x) ∷ m) (inr h) = inr (Has-clock_keys k r m h)

pub clock_keys-Has :
    (ck : ClockKey) (m : Map Record)
    → Has ck (clock_keys m)
    → (r : Record) × Has (ck.key, r) m × (r.clock ≡ ck.clock)
unfolding clock_keys
clock_keys-Has ck [] h = absurd h
clock_keys-Has ck ((j, x) ∷ m) (inl e) = (x, inl (ground arith), ground arith)
clock_keys-Has ck ((j, x) ∷ m) (inr h) = let (r, g, e) = clock_keys-Has ck m h in (r, inr g, e)

Has-append_found :
    (r : Record) (o : Option Record) (out : List Record) → Has r out → Has r (append_found o out)
unfolding append_found
Has-append_found r none out h = h
Has-append_found r (some y) out h = inr h

append_found-Has :
    (r : Record) (o : Option Record) (out : List Record)
    → Has r (append_found o out)
    → (o ≡ some r) ⊎ Has r out
unfolding append_found
append_found-Has r none out h = inr h
append_found-Has r (some y) out (inl e) = inl (ap some e)
append_found-Has r (some y) out (inr h) = inr h

pub Has-collect :
    (r : Record) (ck : ClockKey) (m : Map Record) (cks : List ClockKey)
    → Has ck cks
    → lookup ck.key m ≡ some r
    → Has r (collect m cks)
unfolding collect
Has-collect r ck m [] h e = absurd h
Has-collect r ck m (x ∷ cks) (inl p) e = rw (ap (λ (c : ClockKey). c.key) p, e) (inl refl)
Has-collect r ck m (x ∷ cks) (inr h) e =
    Has-append_found r (lookup x.key m) (collect m cks) (Has-collect r ck m cks h e)

pub collect-Has :
    (r : Record) (m : Map Record) (cks : List ClockKey)
    → Has r (collect m cks)
    → (ck : ClockKey) × Has ck cks × (lookup ck.key m ≡ some r)
unfolding collect
collect-Has r m [] h = absurd h
collect-Has r m (x ∷ cks) h = elim (append_found-Has r (lookup x.key m) (collect m cks) h) [
  | inl e ↦ (x, inl refl, e)
  | inr g ↦ let (ck, i, e) = collect-Has r m cks g in (ck, inr i, e)
]

-- The entries of an index whose clocks are those of the stored records.
abbrev pub Faithful : Map Record → List ClockKey → Type 0
Faithful m = All (λ ck. (r : Record) × (lookup ck.key m ≡ some r) × (r.clock ≡ ck.clock))

-- No record has a clock less than one that stands before it.
abbrev pub Ascending : List Record → Type 0
Ascending = Sorted (λ a b. greater_than b.clock a.clock)

All-append_found :
    (P : Record → Type 0) (o : Option Record) (out : List Record)
    → ((r : Record) → o ≡ some r → P r)
    → All P out
    → All P (append_found o out)
unfolding append_found
All-append_found P none out h a = a
All-append_found P (some y) out h a = (h y refl, a)

All-collect :
    (P : Record → Type 0) (m : Map Record) (cks : List ClockKey)
    → All (λ ck. (r : Record) → lookup ck.key m ≡ some r → P r) cks
    → All P (collect m cks)
unfolding collect
All-collect P m [] h = tt
All-collect P m (x ∷ cks) h =
    All-append_found P (lookup x.key m) (collect m cks) h.0 (All-collect P m cks h.1)

later :
    (x y : ClockKey) (m : Map Record) (r q : Record)
    → r.clock ≡ x.clock
    → clock_key_less y x ≡ false
    → (z : Record) × (lookup y.key m ≡ some z) × (z.clock ≡ y.clock)
    → lookup y.key m ≡ some q
    → greater_than r.clock q.clock ≡ false
later x y m r q e h (z, g, f) p = let same : z ≡ q = cc in rw (e, ← same, f) (less→le x y h)

laters :
    (x : ClockKey) (m : Map Record) (r : Record) (cks : List ClockKey)
    → r.clock ≡ x.clock
    → All (λ y. clock_key_less y x ≡ false) cks
    → Faithful m cks
    → All (λ y. (q : Record) → lookup y.key m ≡ some q → greater_than r.clock q.clock ≡ false) cks
laters x m r [] e h f = tt
laters x m r (y ∷ cks) e h f = ((λ q. later x y m r q e h.0 f.0), laters x m r cks e h.1 f.1)

pub collect-Ascending :
    (m : Map Record) (cks : List ClockKey)
    → Sorted clock_key_less cks
    → Faithful m cks
    → Ascending (collect m cks)
unfolding collect append_found
collect-Ascending m [] s f = tt
collect-Ascending m (x ∷ cks) s f =
    let (r, found, e) = f.0 in
    rw found (All-collect _ m cks (laters x m r cks e s.0 f.1), collect-Ascending m cks s.1 f.1)
