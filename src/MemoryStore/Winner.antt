-- ===== src/MemoryStore/Winner.antt =====
-- What one key holds after a list of records has been received: the winner among them.
use nell_db.Base.{
  ◌≡◌, refl, sym, ap, ◌∙◌, false, Option, none, some, List, [], ◌∷◌, Has, Bool-cases, Option-cases,
  inl, inr, ◌⊎◌, if◌then◌else◌,
}
use nell_db.Base.Bytes.{Bytes, eqb, eqb→eq, eqb_refl}
use nell_db.Record.{Record}
use nell_db.Resolve.Order.{beats, beats_irrefl, beats_connected, beats_trans_not, beats_same_stamp}
use nell_db.MemoryStore.{with_collection}
use nell_db.MemoryStore.Put.{key_of, merge, merge_cases, merge-ge_old, merge-ge_new, merge_origin}

-- What one key holds after the same loop.
unfoldable pub winner_at : Bytes → Option Record → List Record → Option Record
winner_at k o [] = o
winner_at k o (r ∷ rs) =
    winner_at k (if eqb (key_of r) k then some (merge o (with_collection r)) else o) rs

-- The winner was there before or is one of the records received.
pub winner_origin :
    (k : Bytes) (o : Option Record) (rs : List Record) (w : Record)
    → winner_at k o rs ≡ some w
    → (o ≡ some w) ⊎ ((r : Record) × Has r rs × (with_collection r ≡ w) × (key_of r ≡ k))
unfolding winner_at
winner_origin k o [] w h = inl h
winner_origin k o (r ∷ rs) w h = elim (Bool-cases (eqb (key_of r) k)) [
  | inl e ↦ elim (winner_origin k (some (merge o (with_collection r))) rs w (rw e at h)) [
    | inl p ↦
        let q : merge o (with_collection r) ≡ w = cc in
        elim (merge_origin o (with_collection r)) [
          | inl new ↦ inr (r, inl refl, sym new ∙ q, eqb→eq (key_of r) k e)
          | inr old ↦ inl (old ∙ ap some q)
        ]
    | inr (x, i, p, q) ↦ inr (x, inr i, p, q)
  ]
  | inr e ↦ elim (winner_origin k o rs w (rw e at h)) [
    | inl p ↦ inl p
    | inr (x, i, p, q) ↦ inr (x, inr i, p, q)
  ]
]

-- The winner is beaten by nothing that was there before.
winner-ge_start :
    (k : Bytes) (l : Record) (rs : List Record)
    → (w : Record) × (winner_at k (some l) rs ≡ some w) × (beats l w ≡ false)
unfolding winner_at
winner-ge_start k l [] = (l, refl, beats_irrefl l)
winner-ge_start k l (r ∷ rs) = elim (Bool-cases (eqb (key_of r) k)) [
  | inl e ↦
      let m = merge (some l) (with_collection r) in
      let (w, p, q) = winner-ge_start k m rs in
      (w, rw e p, beats_trans_not l m w (merge-ge_old l (with_collection r)) q)
  | inr e ↦ let (w, p, q) = winner-ge_start k l rs in (w, rw e p, q)
]

-- Nor by any record received under the key.
pub winner-ge :
    (k : Bytes) (o : Option Record) (rs : List Record) (r : Record)
    → Has r rs
    → key_of r ≡ k
    → (w : Record) × (winner_at k o rs ≡ some w) × (beats (with_collection r) w ≡ false)
unfolding winner_at
winner-ge k o [] r h e = absurd h
winner-ge k o (x ∷ rs) r (inl p) e =
    let m = merge o (with_collection r) in
    let (w, q, b) = winner-ge_start k m rs in
    (
      w,
      rw (p, e, eqb_refl k) q,
      beats_trans_not (with_collection r) m w (merge-ge_new o (with_collection r)) b,
    )
winner-ge k o (x ∷ rs) r (inr h) e =
    winner-ge k (if eqb (key_of x) k then some (merge o (with_collection x)) else o) rs r h e

-- Two records received under one key with the same clock and the same writing node are the same.
unfoldable pub UniqueStamps : List Record → Type 0
UniqueStamps rs =
    (x y : Record)
    → Has x rs
    → Has y rs
    → key_of x ≡ key_of y
    → x.clock ≡ y.clock
    → x.updated_by ≡ y.updated_by
    → with_collection x ≡ with_collection y

-- Each record of the one list stands in the other, in any order and as often as may be.
pub record SameRecords (xs ys : List Record) : Type 0 where
  pub to : (r : Record) → Has r xs → Has r ys
  pub from : (r : Record) → Has r ys → Has r xs

stamp_kept :
    (r : Record)
    → ((with_collection r).clock ≡ r.clock) × ((with_collection r).updated_by ≡ r.updated_by)
unfolding with_collection
stamp_kept r = (refl, refl)

-- A winner over one list was received, and meets in the other list a winner that it does not beat.
record Meets (xs ys : List Record) (k : Bytes) (w : Record) : Type 0 where
  source : Record
  received : Has source xs
  stored : with_collection source ≡ w
  under : key_of source ≡ k
  other : Record
  wins : winner_at k none ys ≡ some other
  level : beats w other ≡ false

meets :
    (xs ys : List Record) (k : Bytes) (w : Record)
    → ((r : Record) → Has r xs → Has r ys)
    → winner_at k none xs ≡ some w
    → Meets xs ys k w
meets xs ys k w sub e = elim (winner_origin k none xs w e) [
  | inl p ↦ absurd (cc)
  | inr (x, h, p, q) ↦
      let (w', e', b) = winner-ge k none ys x (sub x h) q in
      record {
        source = x;
        received = h;
        stored = p;
        under = q;
        other = w';
        wins = e';
        level = rw p at b;
      }
]

winner_at_agree :
    (xs ys : List Record) (k : Bytes) (w v : Record)
    → SameRecords xs ys
    → UniqueStamps xs
    → winner_at k none xs ≡ some w
    → winner_at k none ys ≡ some v
    → w ≡ v
unfolding UniqueStamps with_collection
winner_at_agree xs ys k w v same unique e f =
    let a = meets xs ys k w same.to e in
    let b = meets ys xs k v same.from f in
    let p : a.other ≡ v = some_inj (sym a.wins ∙ f) in
    let q : b.other ≡ w = some_inj (sym b.wins ∙ e) in
    let (c, u) = beats_connected w v (rw p at a.level) (rw q at b.level) in
    sym a.stored
    ∙ unique a.source b.source a.received (same.from b.source b.received) (a.under ∙ sym b.under)
        (ap (λ (r : Record). r.clock) a.stored ∙ c ∙ sym (ap (λ (r : Record). r.clock) b.stored))
        (ap (λ (r : Record). r.updated_by) a.stored
          ∙ u
          ∙ sym (ap (λ (r : Record). r.updated_by) b.stored))
    ∙ b.stored
  where
    some_inj : {x y : Record} → some x ≡ some y → x ≡ y
    some_inj h = cc

pub winner_at_same :
    (xs ys : List Record) (k : Bytes)
    → SameRecords xs ys
    → UniqueStamps xs
    → winner_at k none xs ≡ winner_at k none ys
winner_at_same xs ys k same unique = elim (Option-cases (winner_at k none xs)) [
  | inl e ↦ elim (Option-cases (winner_at k none ys)) [
    | inl f ↦ e ∙ sym f
    | inr (v, f) ↦ let b = meets ys xs k v same.from f in cc (b.wins)
  ]
  | inr (w, e) ↦
      let a = meets xs ys k w same.to e in
      e ∙ ap some (winner_at_agree xs ys k w a.other same unique e a.wins) ∙ sym a.wins
]

pub merge_tie :
    (l r : Record) → l.clock ≡ r.clock → l.updated_by ≡ r.updated_by → merge (some l) r ≡ l
merge_tie l r c u = elim (merge_cases l r) [
  | inl (e, p) ↦ cc (e, beats_same_stamp l r l c u, beats_irrefl l)
  | inr (e, p) ↦ p
]
