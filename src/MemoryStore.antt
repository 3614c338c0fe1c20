-- ===== src/MemoryStore.antt =====
-- `MemoryStore` of store.go: its state and its methods. The mutex makes each method one step, so a
-- method is a function from the state to the new state and its results. No method fails but `Get`
-- (`ErrRecordNotFound`, here `none`); the errors that the others return are always nil.
pub mod Keys
pub mod Index
pub mod Invariant
pub mod Changes
pub mod Put
pub mod Winner
pub mod Convergence
pub mod Local
pub mod Listing
pub mod Collision
use nell_db.Base.{
  ℕ, Bool, true, false, Option, none, some, List, [], ◌∷◌, ◌++◌, length, get_elem?, drop, not, ◌&&◌,
  ◌||◌, if◌then◌else◌,
}
use nell_db.Base.Int.{ℤ, ltb_ℤ, eqb_ℤ}
use nell_db.Base.Bytes.{Bytes, eqb, lt_bytes}
use nell_db.Base.Map.{Map, lookup, insert}
use nell_db.Base.Sort.{sort, search_index}
use nell_db.Hlc.{Hlc, new_hlc, tick}
use nell_db.Hlc
use nell_db.Record.{Record, zero_record}
use nell_db.Knowledge
use nell_db.Knowledge.{KnowledgeVector}
use nell_db.Resolve.{Side, local, incoming, resolve_conflict, pick}

-- A single entry of the changes index.
pub record ClockKey : Type 0 where
  pub clock : Hlc
  pub key : Bytes

-- `map[string]struct{}`
abbrev pub KeySet : Type 0
KeySet = Map (Unit {0})

pub record MemoryStore : Type 0 where
  pub node_id : Bytes
  pub clock : Hlc
  pub records : Map Record
  pub kv : KnowledgeVector
  pub col_index : Map KeySet
  pub changes_idx : List ClockKey
  pub changes_dirty : Bool

-- "default"
abbrev pub default_collection : Bytes
default_collection = 100 ∷ 101 ∷ 102 ∷ 97 ∷ 117 ∷ 108 ∷ 116 ∷ []

unfoldable pub collection_or_default : Bytes → Bytes
collection_or_default [] = default_collection
collection_or_default (b ∷ bs) = b ∷ bs

-- `collection + ":" + id`
unfoldable pub key : Bytes → Bytes → Bytes
key collection id = collection ++ (58 ∷ id)

unfoldable pub new_memory_store : Bytes → ℤ → MemoryStore
new_memory_store node_id now = record {
  node_id = node_id;
  clock = new_hlc now;
  records = [];
  kv = [];
  col_index = [];
  changes_idx = [];
  changes_dirty = true;
}

-- `set, ok := s.colIndex[collection]; if !ok { set = make(...) }`
unfoldable pub set_or_new : Option KeySet → KeySet
set_or_new none = []
set_or_new (some set) = set

unfoldable pub index_key : Bytes → Bytes → Map KeySet → Map KeySet
index_key k collection idx =
    insert collection (insert k tt (set_or_new (lookup collection idx))) idx

-- The comparison that `rebuildChangesIndex` sorts by.
unfoldable pub clock_key_less : ClockKey → ClockKey → Bool
clock_key_less a b =
    if not (eqb_ℤ a.clock.wall_time b.clock.wall_time)
    then ltb_ℤ a.clock.wall_time b.clock.wall_time
    else if not (eqb_ℤ a.clock.counter b.clock.counter)
    then ltb_ℤ a.clock.counter b.clock.counter
    else lt_bytes a.key b.key

-- The range over the records map.
unfoldable pub clock_keys : Map Record → List ClockKey
clock_keys [] = []
clock_keys ((k, r) ∷ m) = record { clock = r.clock; key = k } ∷ clock_keys m

unfoldable pub rebuild_changes_index : MemoryStore → MemoryStore
rebuild_changes_index s = record s {
  changes_idx = sort clock_key_less (clock_keys s.records);
  changes_dirty = false;
}

unfoldable pub with_collection : Record → Record
with_collection r = record r { collection = collection_or_default r.collection }

-- The end of `Put` on a key that is new, and on one that has a record.
unfoldable pub put_new : MemoryStore → Bytes → Record → MemoryStore
put_new s k r = record s {
  records = insert k r s.records;
  col_index = index_key k r.collection s.col_index;
  kv = Knowledge.update s.kv r.updated_by r.clock;
  changes_dirty = true;
}

unfoldable pub put_over : MemoryStore → Bytes → Record → MemoryStore
put_over s k winner = record s {
  records = insert k winner s.records;
  kv = Knowledge.update s.kv winner.updated_by winner.clock;
  changes_dirty = true;
}

unfoldable pub is_incoming : Side → Bool
is_incoming local = false
is_incoming incoming = true

-- The two branches of `Put`, on what `s.records[key]` gave: the new state, whether the incoming
-- record was accepted, and the current record.
unfoldable pub put_at : MemoryStore → Bytes → Record → Option Record → MemoryStore × Bool × Record
put_at s k r none = (put_new s k r, true, r)
put_at s k r (some old) =
    let side = resolve_conflict old r in
    let winner = pick side old r in (put_over s k winner, is_incoming side, winner)

unfoldable pub put : MemoryStore → Record → MemoryStore × Bool × Record
put s r =
    let r' = with_collection r in
    let s' = record s { clock = Hlc.update s.clock r'.clock } in
    let k = key r'.collection r'.id in put_at s' k r' (lookup k s.records)

-- `if !existed { s.indexKey(key, collection) }`
unfoldable pub index_if_new : Option Record → Bytes → Bytes → Map KeySet → Map KeySet
index_if_new none k collection idx = index_key k collection idx
index_if_new (some _) k collection idx = idx

-- The end of `PutLocal` and of `Delete`: the record is stored under its key whatever was there, and
-- the key is indexed if it is new.
unfoldable pub store_local : MemoryStore → Bytes → Record → MemoryStore
store_local s k r = record s {
  records = insert k r s.records;
  col_index = index_if_new (lookup k s.records) k r.collection s.col_index;
  kv = Knowledge.update s.kv s.node_id r.clock;
  changes_dirty = true;
}

unfoldable pub put_local : ℤ → MemoryStore → Record → MemoryStore × Record
put_local now s r =
    let s' = record s { clock = tick now s.clock } in
    let r' = record (with_collection r) { clock = s'.clock; updated_by = s.node_id } in
    (store_local s' (key r'.collection r'.id) r', r')

unfoldable pub get : MemoryStore → Bytes → Bytes → Option Record
get s collection id = lookup (key (collection_or_default collection) id) s.records

-- `rec, ok := s.records[key]; if !ok { rec = Record{Collection: collection, ID: id} }`
unfoldable pub found_or_new : Option Record → Bytes → Bytes → Record
found_or_new none collection id = record zero_record { collection = collection; id = id }
found_or_new (some r) collection id = r

-- `Delete`. The record keeps the collection that it is stored with; a missing key is indexed under
-- the collection of the call, which is that of the new record.
unfoldable pub delete : ℤ → MemoryStore → Bytes → Bytes → MemoryStore × Record
delete now s collection₀ id =
    let collection = collection_or_default collection₀ in
    let k = key collection id in
    let s' = record s { clock = tick now s.clock } in
    let old = found_or_new (lookup k s.records) collection id in
    let r = record old { clock = s'.clock; updated_by = s.node_id; deleted = true } in
    (store_local s' k r, r)

unfoldable pub record_or_zero : Option Record → Record
record_or_zero none = zero_record
record_or_zero (some r) = r

-- `s.records[key]`: the zero record for a missing key.
unfoldable pub record_at : Map Record → Bytes → Record
unfolding record_or_zero
record_at m k = record_or_zero (lookup k m)

unfoldable pub live_records : Map Record → KeySet → List Record
live_records m [] = []
live_records m ((k, _) ∷ set) =
    let rest = live_records m set in
    let r = record_at m k in if not r.deleted then r ∷ rest else rest

unfoldable pub all_records : Map Record → KeySet → List Record
all_records m [] = []
all_records m ((k, _) ∷ set) = record_at m k ∷ all_records m set

-- `List`; a nil slice and an empty one are the same list.
unfoldable pub list : MemoryStore → Bytes → List Record
list s collection =
    live_records s.records (set_or_new (lookup (collection_or_default collection) s.col_index))

unfoldable pub list_all : MemoryStore → Bytes → List Record
list_all s collection =
    all_records s.records (set_or_new (lookup (collection_or_default collection) s.col_index))

-- `Query`, with the collection of the query.
unfoldable pub query : MemoryStore → Bytes → List Record
query s collection = list s collection

-- The test that `GetChangesSince` searches with; `sort.Search` calls it inside the slice only.
unfoldable pub entry_after : Hlc → Option ClockKey → Bool
entry_after since none = true
entry_after since (some ck) =
    ltb_ℤ since.wall_time ck.clock.wall_time
    || eqb_ℤ ck.clock.wall_time since.wall_time && ltb_ℤ since.counter ck.clock.counter

unfoldable pub after_since : Hlc → List ClockKey → ℕ → Bool
unfolding entry_after
after_since since idx i = entry_after since (get_elem? idx i)

-- `rec, ok := s.records[key]; if !ok { continue }; out = append(out, rec)`
unfoldable pub append_found : Option Record → List Record → List Record
append_found none out = out
append_found (some r) out = r ∷ out

-- The loop over the rest of the index.
unfoldable pub collect : Map Record → List ClockKey → List Record
unfolding append_found
collect m [] = []
collect m (ck ∷ rest) = append_found (lookup ck.key m) (collect m rest)

unfoldable pub ensure_index : MemoryStore → MemoryStore
ensure_index s = if s.changes_dirty then rebuild_changes_index s else s

unfoldable pub get_changes_since : MemoryStore → Hlc → MemoryStore × List Record
get_changes_since s since =
    let s' = ensure_index s in
    let i = search_index (length s'.changes_idx) (after_since since s'.changes_idx) in
    (s', collect s'.records (drop i s'.changes_idx))
