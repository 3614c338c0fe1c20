-- ===== src/Knowledge/Laws.antt =====
-- `KnowledgeVector.Update` of store.go keeps, for each node, the greatest clock that it was given.
use nell_db.Base.{
  ◌≡◌, ◌&&◌, ◌||◌, not, refl, false, Option, none, some, arith, inl, inr, Bool-cases, if◌then◌else◌,
}
use nell_db.Base.Bytes.{Bytes, eqb, eqb_iff, eqb→eq, eqb_refl}
use nell_db.Base.Map.{lookup, lookup-insert}
use nell_db.Hlc.{Hlc, greater_than}
use nell_db.Hlc.Order.{
  greater_than_irrefl, le_trans_hlc, greater_than_asymm, greater_than_trans, greater_than_trans_le,
}
use nell_db.Knowledge.{KnowledgeVector, update, newer_than, unseen}

-- The greater of a clock and one that may be missing.
abbrev pub max_clock : Hlc → Option Hlc → Hlc
max_clock c none = c
max_clock c (some d) = if greater_than c d then c else d

pub lookup-update :
    (kv : KnowledgeVector) (n j : Bytes) (c : Hlc)
    → lookup j (update kv n c) ≡ (if eqb n j then some (max_clock c (lookup n kv)) else lookup j kv)
unfolding update
lookup-update kv n j c = ground (arith, lookup-insert n j c kv, eqb_iff n j)

newer_than-max_clock :
    (c d : Hlc) (o : Option Hlc) → newer_than d o ≡ false → greater_than d (max_clock c o) ≡ false
unfolding newer_than
newer_than-max_clock c d none h = cc
newer_than-max_clock c d (some e) h = ground (arith, le_trans_hlc d e c, greater_than_asymm c e)

newer_than-max_clock_self : (c : Hlc) (o : Option Hlc) → greater_than c (max_clock c o) ≡ false
newer_than-max_clock_self c none = greater_than_irrefl c
newer_than-max_clock_self c (some e) = ground (arith, greater_than_irrefl c)

-- A clock that was recorded for a node is seen.
pub unseen-update_self :
    (kv : KnowledgeVector) (n : Bytes) (c : Hlc) → unseen (update kv n c) n c ≡ false
unfolding unseen
unseen-update_self kv n c =
    rw (lookup-update kv n n c, eqb_refl n) (newer_than-max_clock_self c (lookup n kv))

-- What was seen stays seen.
pub unseen-update :
    (kv : KnowledgeVector) (n j : Bytes) (c d : Hlc)
    → unseen kv j d ≡ false
    → unseen (update kv n c) j d ≡ false
unfolding unseen
unseen-update kv n j c d h = elim (Bool-cases (eqb n j)) [
  | inl e ↦
      rw (lookup-update kv n j c, e)
        (newer_than-max_clock c d (lookup n kv) (rw (← eqb→eq n j e) at h))
  | inr e ↦ rw (lookup-update kv n j c, e) h
]

newer_than-max_clock_and :
    (c d : Hlc) (o : Option Hlc)
    → greater_than d (max_clock c o) ≡ (newer_than d o && greater_than d c)
unfolding newer_than
newer_than-max_clock_and c d none = refl
newer_than-max_clock_and c d (some e) =
    ground (arith, greater_than_trans d c e, greater_than_trans_le d e c)

-- `Update(n, c)` makes seen exactly the clocks of node `n` that are not greater than `c`: a clock
-- `d` of node `j` is unseen afterwards if and only if it was unseen before, and `j` is another node
-- or `d` is greater than `c`.
pub unseen-update_exact :
    (kv : KnowledgeVector) (n j : Bytes) (c d : Hlc)
    → unseen (update kv n c) j d ≡ (unseen kv j d && (not (eqb n j) || greater_than d c))
unfolding unseen
unseen-update_exact kv n j c d = elim (Bool-cases (eqb n j)) [
  | inl e ↦
      rw (lookup-update kv n j c, e, ← eqb→eq n j e) (newer_than-max_clock_and c d (lookup n kv))
  | inr e ↦ rw (lookup-update kv n j c, e) (ground arith)
]
