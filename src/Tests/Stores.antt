-- ===== src/Tests/Stores.antt =====
-- `MemoryStore` and replication.
use nell_db.Base.{
  ◌⊎◌, if◌then◌else◌, ◌≡◌, ◌≢◌, refl, false, true, none, some, List, [], ◌∷◌, Has, inl, inr, length,
  arith, ap,
}
use nell_db.Base.Int.{pos, pos_part, ltb_ℤ, eqb_ℤ}
use nell_db.Base.Bytes.{Bytes, eqb}
use nell_db.Base.Map.{lookup}
use nell_db.Hlc.{Hlc, new_hlc, update, greater_than, inc_int32, zero_hlc}
use nell_db.Hlc.Clock.{HasRoom}
use nell_db.Record.{Record}
use nell_db.Resolve.Order.{beats}
use nell_db.MemoryStore.{
  MemoryStore, new_memory_store, key, collection_or_default, with_collection, put_new, put_at, put,
  put_local, delete, get, list, list_all, get_changes_since,
}
use nell_db.MemoryStore.Keys.{ColonFree}
use nell_db.MemoryStore.Put.{key_of, put_lem}
use nell_db.MemoryStore.Invariant.{IsValid}
use nell_db.MemoryStore.Invariant.Reach.{Reach, here, next, putting, Reach-IsValid}
use nell_db.MemoryStore.Changes.{get_changes_since_exact}
use nell_db.MemoryStore.Changes.Collect.{Ascending}
use nell_db.MemoryStore.Listing.{list_exact, list_all_exact}
use nell_db.MemoryStore.Local.{put_local_lem, delete_lem}
use nell_db.MemoryStore.Winner.{SameRecords, UniqueStamps}
use nell_db.MemoryStore.Convergence.{put_all, put_all_converges, put_all_diverges}
use nell_db.MemoryStore.Collision.{put_shared_key}
use nell_db.Tests.Samples.{first, second, third, node_a, node_b}

abbrev pub empty : MemoryStore
empty = new_memory_store node_a (pos 500)

abbrev pub one : MemoryStore
one = (put empty first).0

pub first_room : HasRoom first.clock
first_room = record { room = λ e. omega (arith, ap pos_part e) }

pub first_plain : ColonFree first.collection
first_plain = omega arith

one-Reach : Reach empty one
one-Reach = next here (putting first first_plain first_room)

pub one-IsValid : IsValid one
one-IsValid = Reach-IsValid node_a (pos 500) one-Reach

Reach-IsValid_example : IsValid one
Reach-IsValid_example = Reach-IsValid node_a (pos 500) one-Reach

get_changes_since_exact_example :
    ((k : Bytes) (r : Record)
      → lookup k one.records ≡ some r
      → greater_than r.clock zero_hlc ≡ true
      → Has r (get_changes_since one zero_hlc).1)
    × ((r : Record)
        → Has r (get_changes_since one zero_hlc).1
        → (k : Bytes) × (lookup k one.records ≡ some r) × (greater_than r.clock zero_hlc ≡ true))
    × Ascending (get_changes_since one zero_hlc).1
    × ((get_changes_since one zero_hlc).0.records ≡ one.records)
get_changes_since_exact_example = get_changes_since_exact one zero_hlc one-IsValid

list_exact_example :
    (Has first (list one first.collection)
      → (k : Bytes) × (lookup k one.records ≡ some first)
        × (first.collection ≡ collection_or_default first.collection)
        × (first.deleted ≡ false))
    × ((k : Bytes)
        → lookup k one.records ≡ some first
        → first.collection ≡ collection_or_default first.collection
        → first.deleted ≡ false
        → Has first (list one first.collection))
list_exact_example = list_exact one first.collection first one-IsValid

list_all_exact_example :
    (Has first (list_all one first.collection)
      → (k : Bytes) × (lookup k one.records ≡ some first)
        × (first.collection ≡ collection_or_default first.collection))
    × ((k : Bytes)
        → lookup k one.records ≡ some first
        → first.collection ≡ collection_or_default first.collection
        → Has first (list_all one first.collection))
list_all_exact_example = list_all_exact one first.collection first one-IsValid

-- The second record meets the first under its key.
put_lem_example :
    ((j : Bytes)
      → lookup j (put one second).0.records
        ≡ (if eqb (key_of second) j then some (put one second).2 else lookup j one.records))
    × (((put one second).2 ≡ with_collection second)
        ⊎ (lookup (key_of second) one.records ≡ some (put one second).2))
    × (beats (with_collection second) (put one second).2 ≡ false)
    × ((old : Record)
        → lookup (key_of second) one.records ≡ some old
        → beats old (put one second).2 ≡ false)
    × (lookup (key_of second) one.records ≡ none → (put one second).1 ≡ true)
    × ((old : Record)
        → lookup (key_of second) one.records ≡ some old
        → (put one second).1 ≡ beats (with_collection second) old)
put_lem_example = put_lem one second

one_room : HasRoom one.clock
unfolding put put_at put_new new_memory_store new_hlc update inc_int32 ltb_ℤ eqb_ℤ with_collection
    lookup
one_room = record { room = λ e. omega (arith, ap pos_part e) }

-- The physical clock is behind.
put_local_lem_example :
    (get (put_local (pos 900) one third).0 third.collection third.id
      ≡ some (put_local (pos 900) one third).1)
    × ((put_local (pos 900) one third).1.updated_by ≡ one.node_id)
    × ((k : Bytes) (x : Record)
        → lookup k one.records ≡ some x
        → greater_than (put_local (pos 900) one third).1.clock x.clock ≡ true)
    × ((j : Bytes)
        → eqb (key_of third) j ≡ false
        → lookup j (put_local (pos 900) one third).0.records ≡ lookup j one.records)
put_local_lem_example = put_local_lem (pos 900) one third one-IsValid one_room

-- The record that is stored becomes a tombstone.
abbrev gone : MemoryStore × Record
gone = delete (pos 900) one first.collection first.id

delete_lem_example :
    (get gone.0 first.collection first.id ≡ some gone.1)
    × (gone.1.deleted ≡ true)
    × (gone.1.updated_by ≡ one.node_id)
    × ((old : Record)
        → get one first.collection first.id ≡ some old
        → (gone.1.type ≡ old.type) × (gone.1.payload ≡ old.payload))
    × ((k : Bytes) (x : Record)
        → lookup k one.records ≡ some x
        → greater_than gone.1.clock x.clock ≡ true)
    × ((j : Bytes)
        → eqb (key (collection_or_default first.collection) first.id) j ≡ false
        → lookup j gone.0.records ≡ lookup j one.records)
delete_lem_example = delete_lem (pos 900) one first.collection first.id one-IsValid one_room

-- Two orders, and one of the records twice.
abbrev pub sent : List Record
sent = first ∷ second ∷ []

abbrev sent_again : List Record
sent_again = second ∷ first ∷ second ∷ []

-- The counters of the two clocks differ.
apart : first.clock ≢ second.clock
apart e = omega (arith, ap (λ (h : Hlc). pos_part h.counter) e)

pub sent-UniqueStamps : UniqueStamps sent
unfolding UniqueStamps
sent-UniqueStamps x y (inl p) (inl q) k c u = rw (← p, ← q) refl
sent-UniqueStamps x y (inl p) (inr (inl q)) k c u = absurd (apart (cc))
sent-UniqueStamps x y (inr (inl p)) (inl q) k c u = absurd (apart (cc))
sent-UniqueStamps x y (inr (inl p)) (inr (inl q)) k c u = rw (← p, ← q) refl
sent-UniqueStamps x y (inl p) (inr (inr q)) k c u = absurd q
sent-UniqueStamps x y (inr (inl p)) (inr (inr q)) k c u = absurd q
sent-UniqueStamps x y (inr (inr p)) q k c u = absurd p

sent-to : (r : Record) → Has r sent → Has r sent_again
sent-to r (inl p) = inr (inl p)
sent-to r (inr (inl p)) = inl p
sent-to r (inr (inr p)) = absurd p

sent-from : (r : Record) → Has r sent_again → Has r sent
sent-from r (inl p) = inr (inl p)
sent-from r (inr (inl p)) = inl p
sent-from r (inr (inr (inl p))) = inr (inl p)
sent-from r (inr (inr (inr p))) = absurd p

sent-SameRecords : SameRecords sent sent_again
sent-SameRecords = record { to = sent-to; from = sent-from }

put_all_converges_example :
    lookup (key_of first) (put_all (new_memory_store node_a (pos 1)) sent).records
    ≡ lookup (key_of first) (put_all (new_memory_store node_b (pos 2)) sent_again).records
put_all_converges_example =
    put_all_converges node_a node_b (pos 1) (pos 2) sent sent_again (key_of first) sent-SameRecords
      sent-UniqueStamps

put_all_diverges_example :
    (lookup
        (key_of first)
        (put_all
          (new_memory_store node_a (pos 1))
          (first ∷ record first { payload = [] } ∷ [])).records
      ≡ some (with_collection first))
    × (lookup
          (key_of first)
          (put_all
            (new_memory_store node_b (pos 2))
            (record first { payload = [] } ∷ first ∷ [])).records
        ≡ some (with_collection (record first { payload = [] })))
unfolding with_collection key
put_all_diverges_example =
    put_all_diverges node_a node_b (pos 1) (pos 2) first (record first { payload = [] }) refl refl
      refl

-- Document "y:1" of collection "x", and document "1" of collection "x:y".
abbrev plain : Record
plain = record first { id = 121 ∷ 58 ∷ 49 ∷ [] }

abbrev nested : Record
nested = record second { collection = 120 ∷ 58 ∷ 121 ∷ []; id = 49 ∷ [] }

put_shared_key_example :
    (get (put (put empty plain).0 nested).0 plain.collection plain.id
      ≡ some (with_collection nested))
    × (list_all (put (put empty plain).0 nested).0 nested.collection ≡ [])
unfolding with_collection key collection_or_default new_memory_store beats greater_than ltb_ℤ eqb_ℤ
    lookup
put_shared_key_example =
    put_shared_key empty plain nested refl refl refl (λ e. omega (arith, ap length e)) refl
