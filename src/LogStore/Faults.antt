-- ===== src/LogStore/Faults.antt =====
-- `Compact` of logstore/log.go on a store with a history: what it keeps when it succeeds, and what each
-- failing step leaves.
use nell_db.Base.{
  ◌&&◌, length, none, some, Has, ◌↔◌, ℕ, ◌≡◌, refl, ap, ◌∙◌, true, false, Option, List, ◌++◌, take,
  drop, append_assoc, take-append-drop, append-nil,
}
use nell_db.Base.Int.{ℤ, ltb_ℤ}
use nell_db.Base.Bytes.{Bytes}
use nell_db.Base.Map.{lookup}
use nell_db.Base.Result.{ok, err}
use nell_db.Record.{Record}
use nell_db.LogStore
use nell_db.LogStore.{
  Zstd, LogStore, ReplayError, CompactFault, flush_fault, create_fault, write_fault, rename_fault,
  compact_open, compact, write_out, keep_records, is_old_tombstone, frame, flush, append,
  replay_outcomes, open_log,
}
use nell_db.LogStore.Compaction.{compact-open, compact_kept}
use nell_db.LogStore.Recovery.{Logged}
use nell_db.LogStore.History.{History, History-Logged}

-- A writer that has had an error takes no more bytes to the file.
stuck :
    (z : Zstd) (s : LogStore)
    → s.failed ≡ true
    → ((r : Record) → (LogStore.put z s r).0.file ≡ s.file) × ((flush s).file ≡ s.file)
unfolding LogStore.put append flush
stuck z s e = rw e ((λ r. refl), refl)

-- When `Compact` succeeds, on a store with such a history, the new store holds under every key exactly
-- what the old one held, except the tombstones whose wall time is before the cutoff, every collection
-- lists the same documents, and the result is the number of records that are held. When a step of it fails,
-- it returns that fault, and the records in memory and the bytes of the log, with those that were buffered,
-- are what they were. When the step is the flush, the bytes that it has not written stay in the buffer, and
-- neither a `Put` nor a flush that follows writes a byte to the file.
pub compact_lem :
    (z : Zstd) (cutoff : ℤ) (ls : LogStore) (rs : List Record)
    → History z ls rs
    → ((k : Bytes) (r : Record)
        → (lookup k (compact z cutoff none ls).0.mem.records ≡ some r)
          ↔ (lookup k ls.mem.records ≡ some r)
            × ((r.deleted && ltb_ℤ r.clock.wall_time cutoff) ≡ false))
      × ((c : Bytes) (r : Record)
          → Has r (LogStore.list (compact z cutoff none ls).0 c) ↔ Has r (LogStore.list ls c))
      × ((fault : CompactFault)
          → ((compact z cutoff (some fault) ls).0.mem ≡ ls.mem)
            × ((compact z cutoff (some fault) ls).0.file
                  ++ (compact z cutoff (some fault) ls).0.buffer
                ≡ ls.file ++ ls.buffer)
            × ((compact z cutoff (some fault) ls).1 ≡ err fault))
      × ((compact z cutoff none ls).1 ≡ ok (length (compact z cutoff none ls).0.mem.records))
      × ((n : ℕ) (r : Record)
          → ((LogStore.put z (compact z cutoff (some (flush_fault n)) ls).0 r).0.file
              ≡ ls.file ++ take n ls.buffer)
            × ((flush (compact z cutoff (some (flush_fault n)) ls).0).file
                ≡ ls.file ++ take n ls.buffer))
unfolding LogStore.list is_old_tombstone
compact_lem z cutoff ls rs h =
    let (records, lists) = compact_kept z cutoff ls rs g in
    (
      rw (opens none) records,
      rw (opens none) lists,
      (λ fault. rw (opens (some fault)) (faults fault)),
      rw (opens none) (unfold compact_open in refl),
      lost,
    )
  where
    g : Logged z ls rs
    g = History-Logged z h

    opens :
        (fault : Option CompactFault) → compact z cutoff fault ls ≡ compact_open z cutoff fault ls
    opens = compact-open z cutoff ls rs g

    faults :
        (fault : CompactFault)
        → ((compact_open z cutoff (some fault) ls).0.mem ≡ ls.mem)
          × ((compact_open z cutoff (some fault) ls).0.file
                ++ (compact_open z cutoff (some fault) ls).0.buffer
              ≡ ls.file ++ ls.buffer)
          × ((compact_open z cutoff (some fault) ls).1 ≡ err fault)
    faults (flush_fault n) =
        unfold compact_open in
        (
          refl,
          append_assoc ls.file (take n ls.buffer) (drop n ls.buffer)
              ∙ ap (λ b. ls.file ++ b) (take-append-drop n ls.buffer),
          refl,
        )
    faults create_fault =
        unfold compact_open write_out in (refl, append-nil (ls.file ++ ls.buffer), refl)
    faults write_fault =
        unfold compact_open write_out in (refl, append-nil (ls.file ++ ls.buffer), refl)
    faults rename_fault =
        unfold compact_open write_out in (refl, append-nil (ls.file ++ ls.buffer), refl)

    lost :
        (n : ℕ) (r : Record)
        → ((LogStore.put z (compact z cutoff (some (flush_fault n)) ls).0 r).0.file
            ≡ ls.file ++ take n ls.buffer)
          × ((flush (compact z cutoff (some (flush_fault n)) ls).0).file
              ≡ ls.file ++ take n ls.buffer)
    lost n r =
        let (puts, flushes) =
          stuck z (compact_open z cutoff (some (flush_fault n)) ls).0
            (unfold compact_open in refl) in
        rw (opens (some (flush_fault n))) (unfold compact_open in (puts r, flushes))
