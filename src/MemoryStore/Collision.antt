-- ===== src/MemoryStore/Collision.antt =====
-- Two documents of two collections that share a key, as `MemoryStore/Keys` shows of collections with a
-- colon in their names.
use nell_db.Base.{
  ◌≡◌, ◌≢◌, refl, sym, ap, ◌∙◌, true, false, Option, none, some, [], inl, inr, Bool-cases,
}
use nell_db.Base.Bytes.{Bytes, eqb, eqb_refl, eqb→eq}
use nell_db.Base.Map.{lookup, lookup-insert}
use nell_db.Record.{Record}
use nell_db.Resolve.Order.{beats}
use nell_db.MemoryStore.{
  MemoryStore, set_or_new, index_key, with_collection, put_new, put_over, put_at, put, get,
  all_records, list_all,
}
use nell_db.MemoryStore.Put.{key_of, merge, merge_cases, lookup-put}

put_at_new :
    (s : MemoryStore) (k c : Bytes) (r : Record) (o : Option Record)
    → o ≡ none
    → eqb r.collection c ≡ false
    → lookup c (put_at s k r o).0.col_index ≡ lookup c s.col_index
unfolding put_at put_new index_key
put_at_new s k c r none e d = lookup-insert r.collection c _ s.col_index ∙ rw d refl
put_at_new s k c r (some x) e d = cc

put_at_over :
    (s : MemoryStore) (k : Bytes) (r old : Record) (o : Option Record)
    → o ≡ some old
    → (put_at s k r o).0.col_index ≡ s.col_index
unfolding put_at put_over
put_at_over s k r old none e = cc
put_at_over s k r old (some x) e = refl

put_over_index :
    (s : MemoryStore) (r old : Record)
    → lookup (key_of r) s.records ≡ some old
    → (put s r).0.col_index ≡ s.col_index
unfolding put
put_over_index s r old e = put_at_over _ (key_of r) (with_collection r) old _ e

-- A store that holds nothing under the key of `a`, nor under the collection of `b`, receives `a` and
-- then `b`, which has the same key in another collection and beats `a`. Then `Get` of `a`'s collection
-- and id returns `b`, the document of another collection, and `ListAll` of `b`'s collection returns
-- nothing, although `b` is stored.
pub put_shared_key :
    (s : MemoryStore) (a b : Record)
    → lookup (key_of a) s.records ≡ none
    → lookup (with_collection b).collection s.col_index ≡ none
    → key_of a ≡ key_of b
    → (with_collection a).collection ≢ (with_collection b).collection
    → beats (with_collection b) (with_collection a) ≡ true
    → (get (put (put s a).0 b).0 a.collection a.id ≡ some (with_collection b))
      × (list_all (put (put s a).0 b).0 b.collection ≡ [])
unfolding get list_all
put_shared_key s a b absent unlisted same other wins = (
  unfold with_collection in stored,
  unfold with_collection in
      rw (index_second, index_first, unlisted) (unfold set_or_new all_records in refl),
)
  where
    a' : Record
    a' = with_collection a

    b' : Record
    b' = with_collection b

    apart : eqb a'.collection b'.collection ≡ false
    apart = elim (Bool-cases (eqb a'.collection b'.collection)) [
      | inl e ↦ absurd (other (eqb→eq _ _ e))
      | inr e ↦ e
    ]

    first : lookup (key_of a) (put s a).0.records ≡ some a'
    first = lookup-put s a (key_of a) ∙ rw (eqb_refl (key_of a), absent) (unfold merge in refl)

    stored : lookup (key_of a) (put (put s a).0 b).0.records ≡ some b'
    stored =
        lookup-put (put s a).0 b (key_of a)
        ∙ rw (← same, eqb_refl (key_of a), first)
            (ap some (elim (merge_cases a' b') [ inl (e, p) ↦ p | inr (e, p) ↦ cc (wins) ]))

    index_first : lookup b'.collection (put s a).0.col_index ≡ lookup b'.collection s.col_index
    index_first = unfold put in put_at_new _ _ b'.collection a' _ absent apart

    found : lookup (key_of b) (put s a).0.records ≡ some a'
    found = ap (λ k. lookup k (put s a).0.records) (sym same) ∙ first

    index_second : (put (put s a).0 b).0.col_index ≡ (put s a).0.col_index
    index_second = put_over_index (put s a).0 b a' found
