-- ===== src/MemoryStore/Invariant/Reach.antt =====
-- The states that a `MemoryStore` reaches by its methods, in any order.
use nell_db.Base.Int.{ℤ}
use nell_db.Base.Bytes.{Bytes}
use nell_db.Hlc.{Hlc}
use nell_db.Hlc.Clock.{HasRoom}
use nell_db.Record.{Record}
use nell_db.MemoryStore.{MemoryStore, new_memory_store, put, put_local, delete, get_changes_since}
use nell_db.MemoryStore.Keys.{ColonFree}
use nell_db.MemoryStore.Invariant.{IsValid}
use nell_db.MemoryStore.Invariant.Write.{new_memory_store-IsValid, put-IsValid}
use nell_db.MemoryStore.Invariant.LocalWrite.{
  put_local-IsValid, delete-IsValid, get_changes_since-IsValid,
}

-- One call of a method that changes the state, with collections that have no colon in their names and
-- clocks whose counters are not at their maximum.
pub data Step (s : MemoryStore) : MemoryStore → Type 0 where
  putting : (r : Record) → ColonFree r.collection → HasRoom r.clock → Step s (put s r).0
  putting_local :
      (now : ℤ) (r : Record)
      → ColonFree r.collection
      → HasRoom s.clock
      → Step s (put_local now s r).0
  deleting :
      (now : ℤ) (collection id : Bytes)
      → ColonFree collection
      → HasRoom s.clock
      → Step s (delete now s collection id).0
  querying : (since : Hlc) → Step s (get_changes_since s since).0

pub data Reach (s : MemoryStore) : MemoryStore → Type 0 where
  here : Reach s s
  next : {t u : MemoryStore} → Reach s t → Step t u → Reach s u

Step-IsValid : {s t : MemoryStore} → Step s t → IsValid s → IsValid t
Step-IsValid {s} (putting r plain room) v = put-IsValid s r plain room v
Step-IsValid {s} (putting_local now r plain room) v = put_local-IsValid now s r v room plain
Step-IsValid {s} (deleting now c id plain room) v = delete-IsValid now s c id v room plain
Step-IsValid {s} (querying since) v = get_changes_since-IsValid s since v

Reach-keeps : {s t : MemoryStore} → IsValid s → Reach s t → IsValid t
Reach-keeps v here = v
Reach-keeps v (next r st) = Step-IsValid st (Reach-keeps v r)

-- Every state that a new store reaches by `Put`, `PutLocal`, `Delete` and `GetChangesSince`, in any
-- order, is valid: each record stands under its own key and in the index of its collection, the
-- index holds no other keys, the knowledge vector covers every stored stamp, no stored clock is ahead
-- of the store's, and a changes index that is not marked dirty is the sorted one. The collections
-- have no colon in their names, and no clock's counter is at its maximum.
pub Reach-IsValid :
    (node_id : Bytes) (now : ℤ) {s : MemoryStore}
    → Reach (new_memory_store node_id now) s
    → IsValid s
Reach-IsValid node_id now r = Reach-keeps (new_memory_store-IsValid node_id now) r
