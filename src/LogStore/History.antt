-- ===== src/LogStore/History.antt =====
-- The states that a `LogStore` of logstore/log.go reaches, with the records that are in its
-- log, and what opening its log again gives.
use nell_db.Base.{
  none, some, ℕ, ◌-◌, ◌≤◌, ◌≡◌, refl, sym, ap, ◌∙◌, Bool, true, false, List, [], ◌∷◌, ◌++◌, length,
  take, arith, append-nil, take-append, le→ltb, length-append,
}
use nell_db.Base.Int.{ℤ}
use nell_db.Base.Bytes.{Bytes}
use nell_db.Base.Map.{lookup}
use nell_db.Base.Result.{Result, ok}
use nell_db.Hlc.{Hlc}
use nell_db.Hlc.Clock.{HasRoom}
use nell_db.Record.{Record}
use nell_db.MemoryStore.{new_memory_store}
use nell_db.MemoryStore.Keys.{ColonFree}
use nell_db.MemoryStore.Invariant.Write.{new_memory_store-IsValid}
use nell_db.MemoryStore.Invariant.LocalWrite.{get_changes_since-IsValid}
use nell_db.MemoryStore.Changes.{get_changes_since_exact}
use nell_db.MemoryStore.Winner.{winner_at, UniqueStamps}
use nell_db.MemoryStore.Convergence.{put_all, lookup-put_all}
use nell_db.LogStore
use nell_db.LogStore.{
  Zstd, LogStore, ReplayError, CompactFault, flush_fault, create_fault, write_fault, rename_fault,
  compact_open, compact, write_out, keep_records, is_old_tombstone, frame, flush, append,
  replay_outcomes, open_log,
}
use nell_db.LogStore.Frames.{Writable, log_of, whole}
use nell_db.LogStore.Compaction.{values, is_after_flush, compact-open, compact-Logged, Logged-fault}
use nell_db.LogStore.Recovery.{
  flush-write_out, Logged-flush, Logged, Logged-append, put-Wrote, put_local-Wrote, delete-Wrote,
}
use nell_db.LogStore.Replay.{Arrives, open_log_torn}

-- The states of a store that was opened on an empty file, with the records that are in its log: each
-- write appends one, and `Compact` leaves those that it keeps. A flush of `Compact` does not fail, since the
-- writer would keep the error. Collections have no colon in their names, no clock's counter is at its maximum, and the
-- records fit their frames.
pub data History (z : Zstd) : LogStore → List Record → Type 0 where
  opened :
      (node_id : Bytes) (now : ℤ) (group_commit : Bool)
      → History z
          (record {
            mem = new_memory_store node_id now;
            file = [];
            buffer = [];
            failed = false;
            group_commit = group_commit;
          })
          []
  putting :
      {ls : LogStore} {rs : List Record} (r : Record)
      → History z ls rs
      → ColonFree r.collection
      → HasRoom r.clock
      → Writable z (LogStore.put z ls r).2
      → History z (LogStore.put z ls r).0 (rs ++ ((LogStore.put z ls r).2 ∷ []))
  putting_local :
      {ls : LogStore} {rs : List Record} (now : ℤ) (r : Record)
      → History z ls rs
      → ColonFree r.collection
      → HasRoom ls.mem.clock
      → Writable z (LogStore.put_local z now ls r).1
      → History z (LogStore.put_local z now ls r).0 (rs ++ ((LogStore.put_local z now ls r).1 ∷ []))
  deleting :
      {ls : LogStore} {rs : List Record} (now : ℤ) (collection id : Bytes)
      → History z ls rs
      → ColonFree collection
      → HasRoom ls.mem.clock
      → Writable z (LogStore.delete z now ls collection id).1
      → History z
          (LogStore.delete z now ls collection id).0
          (rs ++ ((LogStore.delete z now ls collection id).1 ∷ []))
  querying :
      {ls : LogStore} {rs : List Record} (since : Hlc)
      → History z ls rs
      → History z (LogStore.get_changes_since ls since).0 rs
  compacting :
      {ls : LogStore} {rs : List Record} (cutoff : ℤ)
      → History z ls rs
      → History z (compact z cutoff none ls).0 (values (keep_records cutoff ls.mem.records))
  failing :
      {ls : LogStore} {rs : List Record} (cutoff : ℤ) (fault : CompactFault)
      → History z ls rs
      → is_after_flush fault ≡ true
      → History z (compact z cutoff (some fault) ls).0 rs
  flushing : {ls : LogStore} {rs : List Record} → History z ls rs → History z (flush ls) rs

Logged-query :
    (z : Zstd) (ls : LogStore) (rs : List Record) (since : Hlc)
    → Logged z ls rs
    → Logged z (LogStore.get_changes_since ls since).0 rs
unfolding LogStore.get_changes_since
Logged-query z ls rs since g = record {
  bytes = g.bytes;
  clean = g.clean;
  flushed = g.flushed;
  writable = g.writable;
  fits = λ k r e.
      g.fits k r (sym (ap (λ m. lookup k m) (get_changes_since_exact ls.mem since g.valid).3) ∙ e);
  records =
      λ k. ap (λ m. lookup k m) (get_changes_since_exact ls.mem since g.valid).3 ∙ g.records k;
  valid = get_changes_since-IsValid ls.mem since g.valid;
}

pub History-Logged :
    (z : Zstd) {ls : LogStore} {rs : List Record} → History z ls rs → Logged z ls rs
unfolding LogStore.put LogStore.put_local LogStore.delete
History-Logged z (opened node_id now gc) = record {
  bytes = unfold log_of in refl;
  clean = refl;
  flushed = λ e. refl;
  writable = tt;
  fits = λ k r e. absurd (unfold new_memory_store lookup in cc (e));
  records = λ k. unfold winner_at new_memory_store lookup in refl;
  valid = new_memory_store-IsValid node_id now;
}
History-Logged z (putting {ls} {rs} r h plain room fits) =
    let g = History-Logged z h in
    Logged-append z ls _ rs _ g (put-Wrote ls.mem r g.valid plain room) fits
History-Logged z (putting_local {ls} {rs} now r h plain room fits) =
    let g = History-Logged z h in
    Logged-append z ls _ rs _ g (put_local-Wrote now ls.mem g.valid room r plain) fits
History-Logged z (deleting {ls} {rs} now c id h plain room fits) =
    let g = History-Logged z h in
    Logged-append z ls _ rs _ g (delete-Wrote now ls.mem g.valid room c id plain) fits
History-Logged z (querying {ls} {rs} since h) = Logged-query z ls rs since (History-Logged z h)
History-Logged z (compacting {ls} {rs} cutoff h) =
    let g = History-Logged z h in
    rw (compact-open z cutoff ls rs g none) (compact-Logged z cutoff ls rs g)
History-Logged z (failing {ls} {rs} cutoff fault h after) =
    let g = History-Logged z h in
    rw (compact-open z cutoff ls rs g (some fault)) (Logged-fault z cutoff ls rs g fault after)
History-Logged z (flushing {ls} {rs} h) = Logged-flush z ls rs (History-Logged z h)

whole_all : (z : Zstd) (rs : List Record) → whole z (length (log_of z rs)) rs ≡ rs
unfolding whole log_of
whole_all z [] = refl
whole_all z (r ∷ rs) =
    rw
      (le→ltb (length (frame z r ++ log_of z rs)) (length (frame z r))
        (omega (arith, length-append (frame z r) (log_of z rs))))
      (ap (◌∷◌ r) (ap (λ n. whole z n rs) left ∙ whole_all z rs))
  where
    left : length (frame z r ++ log_of z rs) - length (frame z r) ≡ length (log_of z rs)
    left = omega (arith, length-append (frame z r) (log_of z rs))

-- Every store that was opened on an empty file, and has run any sequence of `Put`, `PutLocal`, `Delete`,
-- `GetChangesSince`, `Compact`, whether it succeeds or fails at a step after its flush, and flushes, finds all its records again: when its log is flushed and opened
-- again, on any machine and in whatever order the workers' results arrive, opening succeeds and the
-- new store holds under every key the record that the old one held. Without group commit the
-- same file is there before the flush: nothing is lost when the process dies between two calls. The
-- collections have no colon in their names, no clock's counter is at its maximum, the records fit
-- their frames, and those in the log under one key with one clock and one node are the same.
pub open_log-flush :
    (z : Zstd) (cpus : ℕ) (ls : LogStore) (rs : List Record) (node_id : Bytes) (now : ℤ)
    (received : List (Result ReplayError (List Record)))
    → History z ls rs
    → UniqueStamps rs
    → 1 ≤ cpus
    → Arrives (replay_outcomes z cpus (flush ls).file) received
    → ((again : LogStore) × (open_log node_id now ls.group_commit (flush ls).file received
          ≡ ok again)
        × ((k : Bytes) → lookup k again.mem.records ≡ lookup k ls.mem.records))
      × (ls.group_commit ≡ false → ls.file ≡ (flush ls).file)
open_log-flush z cpus ls rs node_id now received h unique some_cpu arrives = (
  (again, e, λ k. same k ∙ lookup-put_all (new_memory_store node_id now) _ k ∙ held k),
  λ p. unfold flush in unfold write_out in rw (g.clean, g.flushed p) (sym (append-nil ls.file)),
)
  where
    g : Logged z ls rs
    g = History-Logged z h

    written : (write_out ls).file ≡ log_of z rs
    written = unfold write_out in g.bytes

    file : (flush ls).file ≡ take (length (log_of z rs)) (log_of z rs)
    file =
        ap (λ (x : LogStore). x.file) (flush-write_out ls g.clean)
        ∙ written
        ∙ sym (
            ap (take (length (log_of z rs))) (sym (append-nil (log_of z rs)))
            ∙ take-append (log_of z rs) [])

    held :
        (k : Bytes)
        → winner_at k
            (lookup k (new_memory_store node_id now).records)
            (whole z (length (log_of z rs)) rs)
          ≡ lookup k ls.mem.records
    held k = unfold new_memory_store lookup in rw (whole_all z rs) (sym (g.records k))

    opened_again :
        (again : LogStore) × (open_log node_id now ls.group_commit (flush ls).file received
          ≡ ok again)
        × ((k : Bytes)
            → lookup k again.mem.records
              ≡ lookup k
                  (put_all
                    (new_memory_store node_id now)
                    (whole z (length (log_of z rs)) rs)).records)
    opened_again = rw file (
        open_log_torn z cpus (length (log_of z rs)) rs node_id now ls.group_commit received
          g.writable unique some_cpu (rw file at arrives))

    again : LogStore
    again = opened_again.0

    e : open_log node_id now ls.group_commit (flush ls).file received ≡ ok again
    e = opened_again.1

    same :
        (k : Bytes)
        → lookup k again.mem.records
          ≡ lookup k
              (put_all (new_memory_store node_id now) (whole z (length (log_of z rs)) rs)).records
    same = opened_again.2
