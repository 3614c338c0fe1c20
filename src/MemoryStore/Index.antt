-- ===== src/MemoryStore/Index.antt =====
-- The collection index of store.go: which keys `indexKey` has put under which collection.
use nell_db.Base.{
  ◌≡◌, refl, Bool, true, false, Option, none, some, ◌&&◌, ◌||◌, arith, Bool-cases, inl, inr, Has,
  [], ◌∷◌,
}
use nell_db.Base.Bytes.{Bytes, eqb, eqb→eq, eqb_refl}
use nell_db.Base.Map.{Map, lookup, insert, lookup-insert, Has-lookup}
use nell_db.MemoryStore.{KeySet, set_or_new, index_key}

unfoldable pub in_set : Option KeySet → Bytes → Bool
in_set none k = false
in_set (some set) k = elim (lookup k set) [ none ↦ false | some _ ↦ true ]

-- Key `k` stands in the index under collection `c`.
unfoldable pub indexed : Map KeySet → Bytes → Bytes → Bool
unfolding in_set
indexed idx c k = in_set (lookup c idx) k

in_set-insert :
    (k j : Bytes) (set : KeySet)
    → in_set (some (insert k tt set)) j ≡ (eqb k j || in_set (some set) j)
unfolding in_set
in_set-insert k j set = ground (arith, lookup-insert k j tt set)

pub in_set-set_or_new :
    (o : Option KeySet) (k : Bytes) → in_set (some (set_or_new o)) k ≡ in_set o k
unfolding set_or_new in_set lookup
in_set-set_or_new none k = refl
in_set-set_or_new (some set) k = refl

-- `indexKey(k, c)` adds key `k` under collection `c`, and changes nothing else in the index.
pub indexed-index_key :
    (k j c d : Bytes) (idx : Map KeySet)
    → indexed (index_key k c idx) d j ≡ (eqb c d && eqb k j || indexed idx d j)
unfolding indexed index_key
indexed-index_key k j c d idx = elim (Bool-cases (eqb c d)) [
  | inl e ↦ rw (
    lookup-insert c d (insert k tt (set_or_new (lookup c idx))) idx,
    e,
    in_set-insert,
    in_set-set_or_new (lookup c idx) j,
    eqb→eq c d e,
  )
  | inr e ↦ rw (lookup-insert c d (insert k tt (set_or_new (lookup c idx))) idx, e)
]

-- The range over a set meets the keys that are in it.
pub Has-in_set : (set : KeySet) (k : Bytes) → in_set (some set) k ≡ true → Has (k, tt) set
unfolding in_set
Has-in_set set k h = Has-lookup k tt set (ground arith)

pub in_set-Has : (set : KeySet) (k : Bytes) → Has (k, tt) set → in_set (some set) k ≡ true
unfolding in_set lookup
in_set-Has ((i, w) ∷ set) k (inl e) = ground (arith, eqb_refl k)
in_set-Has ((i, w) ∷ set) k (inr h) = ground (arith, in_set-Has set k h)
in_set-Has [] k h = absurd h
