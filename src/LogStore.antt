-- ===== src/LogStore.antt =====
-- `LogStore` of logstore/log.go: the records in memory, behind an append-only log of frames.
--
-- The fields `nodeID` to `changesDirty` are those of `MemoryStore`, and the methods treat them with the
-- same code, line for line, so the model holds them as a `MemoryStore`. The file's bytes are `file`;
-- `buffer` is what the `bufio.Writer` still holds; that it writes out a full buffer by itself is left out.
-- `Compact`, which handles the failures of its steps one by one, takes the step that fails as an argument;
-- elsewhere the file system does not fail a write. A `bufio.Writer` keeps its first error: the methods that
-- write return an error besides their results exactly when the store that they leave has `failed`, so the
-- error itself is left out.
pub mod Frames
pub mod Reading
pub mod Replay
pub mod Recovery
pub mod History
pub mod Faults
pub mod Compaction
use nell_db.Base.{
  ℕ, zero, suc, ◌+◌, ◌-◌, ◌%◌, ◌/◌, ◌^◌, ◌≡◌, min, Bool, true, false, Option, none, some, List, [],
  ◌∷◌, ◌++◌, ltb, length, take, drop, ◌&&◌, if◌then◌else◌,
}
use nell_db.Base.Int.{ℤ, ltb_ℤ}
use nell_db.Base.Bytes.{Bytes, put_be, get_be}
use nell_db.Base.Map.{Map, lookup, insert}
use nell_db.Base.Result.{Result, ok, err, ◌>>=◌}
use nell_db.Hlc
use nell_db.Hlc.{Hlc}
use nell_db.Record.{Record, DecodeError, marshal_binary, unmarshal_binary}
use nell_db.Knowledge
use nell_db.Knowledge.{KnowledgeVector}
use nell_db.Resolve.{resolve_conflict, pick}
use nell_db.MemoryStore
use nell_db.MemoryStore.Put.{merge}
use nell_db.MemoryStore.{MemoryStore, KeySet, new_memory_store, key, index_key, with_collection}

-- The compression library: its encoder, its decoder, which may refuse, and that the one undoes the
-- other.
pub record Zstd : Type 0 where
  pub encode : Bytes → Bytes
  pub decode : Bytes → Option Bytes
  pub decodes : (b : Bytes) → decode (encode b) ≡ some b

pub record LogStore : Type 0 where
  pub mem : MemoryStore
  pub file : Bytes
  pub buffer : Bytes
  -- The writer has had an error, which it keeps.
  pub failed : Bool
  -- `flushInterval > 0`
  pub group_commit : Bool

unfoldable pub frame : Zstd → Record → Bytes
frame z r =
    let raw = marshal_binary r in
    let compressed = z.encode raw in
    put_be 4 (length raw % 2 ^ 32) ++ (put_be 4 (length compressed % 2 ^ 32) ++ compressed)

-- `ls.writer.Flush()` and what it does on a writer that has no error.
unfoldable pub write_out : LogStore → LogStore
write_out ls = record ls { file = ls.file ++ ls.buffer; buffer = [] }

unfoldable pub flush : LogStore → LogStore
flush ls = if ls.failed then ls else write_out ls

unfoldable pub append : Zstd → LogStore → Record → LogStore
append z ls r =
    let ls' = record ls { buffer = ls.buffer ++ frame z r } in
    if ls.failed then ls else if ls.group_commit then ls' else write_out ls'

unfoldable pub put : Zstd → LogStore → Record → LogStore × Bool × Record
put z ls incoming =
    let (mem, accepted, current) = MemoryStore.put ls.mem incoming in
    (append z (record ls { mem = mem }) current, accepted, current)

unfoldable pub put_local : Zstd → ℤ → LogStore → Record → LogStore × Record
put_local z now ls r =
    let (mem, stored) = MemoryStore.put_local now ls.mem r in
    (append z (record ls { mem = mem }) stored, stored)

unfoldable pub delete : Zstd → ℤ → LogStore → Bytes → Bytes → LogStore × Record
delete z now ls collection id =
    let (mem, tombstone) = MemoryStore.delete now ls.mem collection id in
    (append z (record ls { mem = mem }) tombstone, tombstone)

unfoldable pub get : LogStore → Bytes → Bytes → Option Record
get ls collection id = MemoryStore.get ls.mem collection id

unfoldable pub list : LogStore → Bytes → List Record
list ls collection = MemoryStore.list ls.mem collection

unfoldable pub list_all : LogStore → Bytes → List Record
list_all ls collection = MemoryStore.list_all ls.mem collection

unfoldable pub get_changes_since : LogStore → Hlc → LogStore × List Record
get_changes_since ls since =
    let (mem, changes) = MemoryStore.get_changes_since ls.mem since in
    (record ls { mem = mem }, changes)

-- What the first phase of `replay` keeps of a frame.
pub record Frame : Type 0 where
  pub offset : ℕ
  pub comp_len : ℕ
  pub uncomp_len : ℕ

-- The first phase, on the bytes from `offset` on. Every turn reads at least the eight bytes of a header.
unfoldable pub scan_frames : ℕ → ℕ → Bytes → List Frame
scan_frames zero offset b = []
scan_frames (suc fuel) offset b =
    let uncomp_len = get_be (take 4 b) in
    let comp_len = get_be (take 4 (drop 4 b)) in
    let rest = drop 8 b in
    let more = scan_frames fuel (offset + 8 + comp_len) (drop comp_len rest) in
    if ltb (length b) 8
    then []
    else if ltb (length rest) comp_len
    then []
    else record { offset = offset + 8; comp_len = comp_len; uncomp_len = uncomp_len } ∷ more

pub data ReplayError : Type 0 where
  short_read : ReplayError
  bad_compression : ReplayError
  bad_record : DecodeError → ReplayError

unfoldable pub decode_raw : Result DecodeError Record → Result ReplayError Record
decode_raw (ok r) = ok r
decode_raw (err e) = err (bad_record e)

unfoldable pub decode_frame : Option Bytes → Result ReplayError Record
decode_frame none = err bad_compression
decode_frame (some raw) = decode_raw (unmarshal_binary raw)

-- What a worker does with one frame: `ReadAt`, `DecodeAll`, `UnmarshalBinary`.
unfoldable pub read_frame : Zstd → Bytes → Frame → Result ReplayError Record
read_frame z file fr =
    let found = drop fr.offset file in
    if ltb (length found) fr.comp_len
    then err short_read
    else decode_frame (z.decode (take fr.comp_len found))

-- A worker of the second phase: its records in order, or the first error.
unfoldable pub worker : Zstd → Bytes → List Frame → Result ReplayError (List Record)
worker z file [] = ok []
worker z file (fr ∷ frames) = do r ← read_frame z file fr; rs ← worker z file frames; ok (r ∷ rs)

-- The frames of each worker, `frames[start:end]`, until they are used up.
unfoldable pub chunks : ℕ → ℕ → List Frame → List (List Frame)
chunks zero size frames = []
chunks (suc workers) size [] = []
chunks (suc workers) size (fr ∷ frames) =
    take size (fr ∷ frames) ∷ chunks workers size (drop size (fr ∷ frames))

unfoldable pub outcomes : Zstd → Bytes → List (List Frame) → List (Result ReplayError (List Record))
outcomes z file [] = []
outcomes z file (fs ∷ rest) = worker z file fs ∷ outcomes z file rest

-- The outcomes of all workers, with `cpus` for `runtime.NumCPU()`.
unfoldable pub replay_outcomes : Zstd → ℕ → Bytes → List (Result ReplayError (List Record))
replay_outcomes z cpus file =
    let frames = scan_frames (suc (length file)) 0 file in
    let workers = min cpus 12 in
    outcomes z file (chunks workers ((length frames + workers - 1) / workers) frames)

-- The body of the third phase's loop.
unfoldable pub merge_record : MemoryStore → Record → MemoryStore
merge_record s r =
    let r' = with_collection r in
    let k = key r'.collection r'.id in
    record s {
      records = insert k (merge (lookup k s.records) r') s.records;
      col_index = index_key k r'.collection s.col_index;
      clock = Hlc.update s.clock r'.clock;
      kv = Knowledge.update s.kv r'.updated_by r'.clock;
    }

unfoldable pub merge_records : MemoryStore → List Record → MemoryStore
merge_records s [] = s
merge_records s (r ∷ rs) = merge_records (merge_record s r) rs

-- The third phase, on the outcomes that its `select` receives before it sees the closed channel.
unfoldable pub merge_outcomes :
    MemoryStore → List (Result ReplayError (List Record)) → Result ReplayError MemoryStore
merge_outcomes s [] = ok s
merge_outcomes s (err e ∷ received) = err e
merge_outcomes s (ok rs ∷ received) = merge_outcomes (merge_records s rs) received

-- `OpenLogWithOptions` on a file with the bytes `file`, where replay receives `received`.
unfoldable pub open_log :
    Bytes → ℤ → Bool → Bytes → List (Result ReplayError (List Record)) → Result ReplayError LogStore
open_log node_id now group_commit file received = do
  mem ← merge_outcomes (new_memory_store node_id now) received
  ok (record { mem = mem; file = file; buffer = []; failed = false; group_commit = group_commit })

-- The second phase of `Compact`: what is kept of the records.
unfoldable pub is_old_tombstone : ℤ → Record → Bool
is_old_tombstone cutoff r = r.deleted && ltb_ℤ r.clock.wall_time cutoff

unfoldable pub keep_records : ℤ → Map Record → Map Record
keep_records cutoff [] = []
keep_records cutoff ((k, r) ∷ m) =
    let rest = keep_records cutoff m in if is_old_tombstone cutoff r then rest else (k, r) ∷ rest

unfoldable pub log_of_map : Zstd → Map Record → Bytes
log_of_map z [] = []
log_of_map z ((k, r) ∷ m) = frame z r ++ log_of_map z m

unfoldable pub index_all : Map Record → Map KeySet
index_all [] = []
index_all ((k, r) ∷ m) = index_key k r.collection (index_all m)

unfoldable pub know_all : Map Record → KnowledgeVector
know_all [] = []
know_all ((k, r) ∷ m) = Knowledge.update (know_all m) r.updated_by r.clock

-- The steps of `Compact` whose failure makes it return an error. A flush that fails has written some
-- bytes.
pub data CompactFault : Type 0 where
  flush_fault : ℕ → CompactFault
  create_fault write_fault rename_fault : CompactFault

-- `Compact` on a writer that has no error. After a failed flush the writer keeps the error and the bytes that
-- it has not written. A failed rename opens the file again, with a new writer.
unfoldable pub compact_open :
    Zstd → ℤ → Option CompactFault → LogStore → LogStore × Result CompactFault ℕ
compact_open z cutoff (some (flush_fault n)) ls = (
  record ls { file = ls.file ++ take n ls.buffer; buffer = drop n ls.buffer; failed = true },
  err (flush_fault n),
)
compact_open z cutoff (some fault) ls = (write_out ls, err fault)
compact_open z cutoff none ls =
    let keep = keep_records cutoff ls.mem.records in
    (
      record ls {
        mem = record ls.mem {
          records = keep;
          changes_dirty = true;
          col_index = index_all keep;
          kv = know_all keep;
        };
        file = log_of_map z keep;
        buffer = [];
      },
      ok (length keep),
    )

-- `Compact`, with `cutoff` for the present time less the threshold and the step that fails, if any.
unfoldable pub compact :
    Zstd → ℤ → Option CompactFault → LogStore → LogStore × Result CompactFault ℕ
compact z cutoff fault ls =
    if ls.failed then (ls, err (flush_fault 0)) else compact_open z cutoff fault ls
