-- ===== src/Tests/Logs.antt =====
-- The log store.
use nell_db.Base.{
  ◌&&◌, ℕ, ◌≡◌, ◌↔◌, refl, ◌++◌, ◌∷◌, [], false, none, some, List, Has, inl, inr, take, length,
  arith,
}
use nell_db.Base.Int.{pos, ltb_ℤ}
use nell_db.Base.Bytes.{Bytes}
use nell_db.Base.Map.{lookup}
use nell_db.Base.Result.{Result, ok, err}
use nell_db.Record.{Record, encoded_size}
use nell_db.Record.Codec.{Encodable}
use nell_db.Record.Truncation.{length-marshal_binary}
use nell_db.MemoryStore
use nell_db.MemoryStore.{new_memory_store, with_collection, put_at, put_new}
use nell_db.MemoryStore.Winner.{UniqueStamps}
use nell_db.MemoryStore.Convergence.{put_all}
use nell_db.LogStore
use nell_db.LogStore.{
  Zstd, LogStore, ReplayError, CompactFault, flush_fault, flush, replay_outcomes, open_log, compact,
  is_old_tombstone,
}
use nell_db.LogStore.Frames.{Writable, log_of, whole}
use nell_db.LogStore.Replay.{Arrives, open_log_torn}
use nell_db.LogStore.History.{History, opened, putting, open_log-flush}
use nell_db.LogStore.Faults.{compact_lem}
use nell_db.Tests.Samples.{first, second, node_a, node_b}
use nell_db.Tests.Codecs.{first-Encodable}
use nell_db.Tests.Stores.{first_plain, first_room, sent, sent-UniqueStamps}

-- An encoder that leaves the bytes as they are.
abbrev stored : Zstd
stored = record { encode = λ b. b; decode = λ b. some b; decodes = λ b. refl }

second-Encodable : Encodable second
second-Encodable = omega arith

first-Writable : Writable stored first
first-Writable = record {
  encodable = first-Encodable;
  fits = rw (length-marshal_binary first) (unfold encoded_size in omega arith);
}

second-Writable : Writable stored second
second-Writable = record {
  encodable = second-Encodable;
  fits = rw (length-marshal_binary second) (unfold encoded_size in omega arith);
}

Arrives-refl : (os : List (Result ReplayError (List Record))) → Arrives os os
Arrives-refl os = record { all = λ xs h. h; only = λ o h. h }

-- The second frame is cut short.
open_log_torn_example :
    (ls : LogStore) × (open_log node_b
        (pos 600)
        false
        (take 70 (log_of stored sent))
        (replay_outcomes stored 4 (take 70 (log_of stored sent)))
      ≡ ok ls)
    × ((k : Bytes)
        → lookup k ls.mem.records
          ≡ lookup k (put_all (new_memory_store node_b (pos 600)) (whole stored 70 sent)).records)
open_log_torn_example =
    open_log_torn stored 4 70 sent node_b (pos 600) false
      (replay_outcomes stored 4 (take 70 (log_of stored sent)))
      (first-Writable, (second-Writable, tt)) sent-UniqueStamps (omega arith) (Arrives-refl _)

abbrev fresh : LogStore
fresh = record {
  mem = new_memory_store node_a (pos 500);
  file = [];
  buffer = [];
  failed = false;
  group_commit = false;
}

abbrev written : LogStore
written = (LogStore.put stored fresh first).0

put-first : (LogStore.put stored fresh first).2 ≡ first
unfolding LogStore.put MemoryStore.put put_at with_collection new_memory_store lookup
    MemoryStore.collection_or_default
put-first = refl

abbrev log_1 : List Record
log_1 = [] ++ ((LogStore.put stored fresh first).2 ∷ [])

written-History : History stored written log_1
written-History =
    putting first (opened node_a (pos 500) false) first_plain first_room
      (rw put-first first-Writable)

log_1-UniqueStamps : UniqueStamps log_1
unfolding UniqueStamps
log_1-UniqueStamps x y (inl p) (inl q) k c u = rw (← p, ← q) refl
log_1-UniqueStamps x y (inr p) q k c u = absurd p
log_1-UniqueStamps x y (inl p) (inr q) k c u = absurd q

open_log-flush_example :
    ((again : LogStore) × (open_log node_a
          (pos 700)
          written.group_commit
          (flush written).file
          (replay_outcomes stored 4 (flush written).file)
        ≡ ok again)
      × ((k : Bytes) → lookup k again.mem.records ≡ lookup k written.mem.records))
    × (written.group_commit ≡ false → written.file ≡ (flush written).file)
open_log-flush_example =
    open_log-flush stored 4 written log_1 node_a (pos 700)
      (replay_outcomes stored 4 (flush written).file) written-History log_1-UniqueStamps
      (omega arith) (Arrives-refl _)

compact_lem_example :
    ((k : Bytes) (r : Record)
      → (lookup k (compact stored (pos 900) none written).0.mem.records ≡ some r)
        ↔ (lookup k written.mem.records ≡ some r)
          × ((r.deleted && ltb_ℤ r.clock.wall_time (pos 900)) ≡ false))
    × ((c : Bytes) (r : Record)
        → Has r (LogStore.list (compact stored (pos 900) none written).0 c)
          ↔ Has r (LogStore.list written c))
    × ((fault : CompactFault)
        → ((compact stored (pos 900) (some fault) written).0.mem ≡ written.mem)
          × ((compact stored (pos 900) (some fault) written).0.file
                ++ (compact stored (pos 900) (some fault) written).0.buffer
              ≡ written.file ++ written.buffer)
          × ((compact stored (pos 900) (some fault) written).1 ≡ err fault))
    × ((compact stored (pos 900) none written).1
        ≡ ok (length (compact stored (pos 900) none written).0.mem.records))
    × ((n : ℕ) (r : Record)
        → ((LogStore.put stored
              (compact stored (pos 900) (some (flush_fault n)) written).0
              r).0.file
            ≡ written.file ++ take n written.buffer)
          × ((flush (compact stored (pos 900) (some (flush_fault n)) written).0).file
              ≡ written.file ++ take n written.buffer))
compact_lem_example = compact_lem stored (pos 900) written log_1 written-History
