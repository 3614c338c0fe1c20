-- ===== src/LogStore/Replay.antt =====
-- What `replay` of logstore/log.go rebuilds from a log, whole or cut short, in whatever order the
-- workers' results arrive.
use nell_db.Base.{
  ℕ, zero, suc, ◌+◌, ◌-◌, ◌*◌, ◌/◌, ◌≤◌, ◌≡◌, refl, false, sym, ap, ◌∙◌, Bool, some, List, [], ◌∷◌,
  ◌++◌, All, Has, ltb, length, take, drop, arith, append_assoc, take-append_ge, min, if◌then◌else◌,
  Bool-cases, inl, inr, Has-append_left, Has-append_right, Has-append_cases, take-append-drop,
  length-drop,
}
use native.Mathlib.Omega.{div_any}
use native.Mathlib.Nat.{mod-lt}
use nell_db.Base.Int.{ℤ}
use nell_db.Base.Bytes.{Bytes, eqb, eqb→eq}
use nell_db.Base.Map.{lookup, lookup-insert}
use nell_db.Base.Result.{Result, ok, err}
use nell_db.Record.{Record}
use nell_db.MemoryStore.{MemoryStore, new_memory_store, with_collection}
use nell_db.MemoryStore.Put.{key_of, merge}
use nell_db.MemoryStore.Winner.{winner_at, winner_at_same, UniqueStamps, SameRecords}
use nell_db.MemoryStore.Convergence.{put_all, lookup-put_all}
use nell_db.LogStore.{
  Zstd, LogStore, Frame, ReplayError, frame, scan_frames, worker, chunks, outcomes, replay_outcomes,
  merge_record, merge_records, merge_outcomes, open_log,
}
use nell_db.LogStore.Reading.{Read, frames_of-Read, Read-worker, Read-take, Read-drop}
use nell_db.LogStore.Frames.{Writable, log_of, whole, frames_of, scan_frames-whole}

-- The workers' outcomes are lists of records, which hold together exactly `rs`.
record Covers (os : List (Result ReplayError (List Record))) (rs : List Record) : Type 0 where
  sound :
      (o : Result ReplayError (List Record))
      → Has o os
      → (xs : List Record) × (o ≡ ok xs) × ((r : Record) → Has r xs → Has r rs)
  complete : (r : Record) → Has r rs → (xs : List Record) × Has (ok xs) os × Has r xs

take-Has : (n : ℕ) (r : Record) (rs : List Record) → Has r (take n rs) → Has r rs
take-Has n r rs h = rw (take-append-drop n rs) at (Has-append_left r (take n rs) (drop n rs) h)

drop-Has : (n : ℕ) (r : Record) (rs : List Record) → Has r (drop n rs) → Has r rs
drop-Has n r rs h = rw (take-append-drop n rs) at (Has-append_right r (take n rs) (drop n rs) h)

outcomes-Covers :
    (z : Zstd) (file : Bytes) (workers size : ℕ) (frames : List Frame) (rs : List Record)
    → Read z file frames rs
    → length frames ≤ workers * size
    → Covers (outcomes z file (chunks workers size frames)) rs
unfolding outcomes chunks Read
outcomes-Covers z file zero size [] [] h enough = record {
  sound = λ o a. absurd a;
  complete = λ r a. absurd a;
}
outcomes-Covers z file zero size [] (r ∷ rs) h enough = absurd h
outcomes-Covers z file zero size (fr ∷ frames) rs h enough = absurd (omega arith)
outcomes-Covers z file (suc workers) size [] [] h enough = record {
  sound = λ o a. absurd a;
  complete = λ r a. absurd a;
}
outcomes-Covers z file (suc workers) size [] (r ∷ rs) h enough = absurd h
outcomes-Covers z file (suc workers) size (fr ∷ frames) rs h enough =
    let done : worker z file (take size (fr ∷ frames)) ≡ ok (take size rs) =
      Read-worker z file _ _ (Read-take z file size (fr ∷ frames) rs h) in
    let more =
      outcomes-Covers z file workers size (drop size (fr ∷ frames)) (drop size rs)
        (Read-drop z file size (fr ∷ frames) rs h)
        (omega (arith, length-drop size (fr ∷ frames), enough)) in
    record {
      sound = λ o a. elim a [
        | inl e ↦ (take size rs, sym e ∙ done, λ r i. take-Has size r rs i)
        | inr a' ↦ let (xs, e, i) = more.sound o a' in (xs, e, λ r j. drop-Has size r rs (i r j))
      ];
      complete = λ r a.
          elim (Has-append_cases r (take size rs) (drop size rs)
            (rw (take-append-drop size rs) a)) [
              | inl i ↦ (take size rs, inl done, i)
              | inr i ↦ let (xs, j, g) = more.complete r i in (xs, inr j, g)
            ];
    }

-- What the loop of the third phase receives before it sees the closed channel: every list of records,
-- since they are all sent before the close, and nothing that no worker sent. The order is free.
pub record Arrives (sent received : List (Result ReplayError (List Record))) : Type 0 where
  pub all : (xs : List Record) → Has (ok xs) sent → Has (ok xs) received
  pub only : (o : Result ReplayError (List Record)) → Has o received → Has o sent

Arrives-Covers :
    (sent received : List (Result ReplayError (List Record))) (rs : List Record)
    → Arrives sent received
    → Covers sent rs
    → Covers received rs
Arrives-Covers sent received rs a c = record {
  sound = λ o h. c.sound o (a.only o h);
  complete = λ r h. let (xs, i, j) = c.complete r h in (xs, a.all xs i, j);
}

-- The records that arrive, in order.
joined : List (Result ReplayError (List Record)) → List Record
joined [] = []
joined (ok xs ∷ received) = xs ++ joined received
joined (err e ∷ received) = joined received

joined-Has :
    (received : List (Result ReplayError (List Record))) (r : Record)
    → Has r (joined received)
    → (xs : List Record) × Has (ok xs) received × Has r xs
unfolding joined
joined-Has [] r h = absurd h
joined-Has (ok xs ∷ received) r h = elim (Has-append_cases r xs (joined received) h) [
  | inl i ↦ (xs, inl refl, i)
  | inr i ↦ let (ys, j, g) = joined-Has received r i in (ys, inr j, g)
]
joined-Has (err e ∷ received) r h = let (ys, j, g) = joined-Has received r h in (ys, inr j, g)

Has-joined :
    (received : List (Result ReplayError (List Record))) (r : Record) (xs : List Record)
    → Has (ok xs) received
    → Has r xs
    → Has r (joined received)
unfolding joined
Has-joined [] r xs h i = absurd h
Has-joined (ok ys ∷ received) r xs (inl e) i =
    let p : ys ≡ xs = cc in Has-append_left r ys (joined received) (rw (← p) at i)
Has-joined (ok ys ∷ received) r xs (inr h) i =
    Has-append_right r ys (joined received) (Has-joined received r xs h i)
Has-joined (err e ∷ received) r xs (inl p) i = cc
Has-joined (err e ∷ received) r xs (inr h) i = Has-joined received r xs h i

Covers-SameRecords :
    (received : List (Result ReplayError (List Record))) (rs : List Record)
    → Covers received rs
    → SameRecords (joined received) rs
Covers-SameRecords received rs c = record {
  to = λ r h.
      let (xs, i, j) = joined-Has received r h in
      let (ys, e, g) = c.sound (ok xs) i in let p : xs ≡ ys = cc in g r (rw (p) at j);
  from = λ r h. let (xs, i, j) = c.complete r h in Has-joined received r xs i j;
}

merge_records-append :
    (s : MemoryStore) (xs ys : List Record)
    → merge_records s (xs ++ ys) ≡ merge_records (merge_records s xs) ys
unfolding merge_records
merge_records-append s [] ys = refl
merge_records-append s (x ∷ xs) ys = merge_records-append (merge_record s x) xs ys

merge_outcomes-joined :
    (s : MemoryStore) (received : List (Result ReplayError (List Record)))
    → ((o : Result ReplayError (List Record)) → Has o received → (xs : List Record) × (o ≡ ok xs))
    → merge_outcomes s received ≡ ok (merge_records s (joined received))
unfolding merge_outcomes joined merge_records
merge_outcomes-joined s [] every = refl
merge_outcomes-joined s (err e ∷ received) every = let (xs, p) = every (err e) (inl refl) in cc (p)
merge_outcomes-joined s (ok xs ∷ received) every =
    merge_outcomes-joined (merge_records s xs) received (λ o h. every o (inr h))
    ∙ ap ok (sym (merge_records-append s xs (joined received)))

lookup-merge_record :
    (s : MemoryStore) (r : Record) (k : Bytes)
    → lookup k (merge_record s r).records ≡ (
        if eqb (key_of r) k
        then some (merge (lookup k s.records) (with_collection r))
        else lookup k s.records)
unfolding merge_record
lookup-merge_record s r k = elim (Bool-cases (eqb (key_of r) k)) [
  | inl e ↦ lookup-insert (key_of r) k _ s.records ∙ rw (e, eqb→eq (key_of r) k e) refl
  | inr e ↦ lookup-insert (key_of r) k _ s.records ∙ rw e refl
]

pub lookup-merge_records :
    (s : MemoryStore) (rs : List Record) (k : Bytes)
    → lookup k (merge_records s rs).records ≡ winner_at k (lookup k s.records) rs
unfolding merge_records winner_at
lookup-merge_records s [] k = refl
lookup-merge_records s (r ∷ rs) k =
    lookup-merge_records (merge_record s r) rs k
    ∙ ap (λ o. winner_at k o rs) (lookup-merge_record s r k)

take-log_of :
    (z : Zstd) (rs : List Record) (n : ℕ)
    → (torn : Bytes) × (take n (log_of z rs) ≡ log_of z (whole z n rs) ++ torn)
unfolding log_of whole
take-log_of z [] zero = ([], refl)
take-log_of z [] (suc n) = ([], refl)
take-log_of z (r ∷ rs) n = elim (Bool-cases (ltb n (length (frame z r)))) [
  | inl e ↦ (take n (frame z r ++ log_of z rs), rw e refl)
  | inr e ↦
      let enough : length (frame z r) ≤ n = ground (arith, e) in
      let (torn, p) = take-log_of z rs (n - length (frame z r)) in
      (
        torn,
        rw (e, take-append_ge n (frame z r) (log_of z rs) enough, p)
            (sym (append_assoc (frame z r) (log_of z (whole z (n - length (frame z r)) rs)) torn)),
      )
]

whole-Has : (z : Zstd) (n : ℕ) (rs : List Record) (r : Record) → Has r (whole z n rs) → Has r rs
unfolding whole
whole-Has z n [] r h = absurd h
whole-Has z n (x ∷ rs) r h = elim (Bool-cases (ltb n (length (frame z x)))) [
  | inl e ↦ absurd (rw e at h)
  | inr e ↦ elim (rw e at h) [
    | inl p ↦ inl p
    | inr g ↦ inr (whole-Has z (n - length (frame z x)) rs r g)
  ]
]

whole-All :
    (z : Zstd) (n : ℕ) (rs : List Record) → All (Writable z) rs → All (Writable z) (whole z n rs)
unfolding whole
whole-All z n [] w = tt
whole-All z n (x ∷ rs) (w, ws) = elim (Bool-cases (ltb n (length (frame z x)))) [
  | inl e ↦ rw e tt
  | inr e ↦ rw e (w, whole-All z (n - length (frame z x)) rs ws)
]

pub UniqueStamps-sub :
    (xs ys : List Record) → ((r : Record) → Has r xs → Has r ys) → UniqueStamps ys → UniqueStamps xs
unfolding UniqueStamps
UniqueStamps-sub xs ys sub u x y h g = u x y (sub x h) (sub y g)

enough_chunks : (n cpus : ℕ) → 1 ≤ cpus → n ≤ min cpus 12 * ((n + min cpus 12 - 1) / min cpus 12)
enough_chunks n cpus h =
    let w = min cpus 12 in
    omega (arith, div_any (n + w - 1) w, mod-lt (n + w - 1) {m = w} (omega (arith, h)), h)

replay_outcomes-Covers :
    (z : Zstd) (cpus n : ℕ) (rs : List Record)
    → All (Writable z) rs
    → 1 ≤ cpus
    → Covers (replay_outcomes z cpus (take n (log_of z rs))) (whole z n rs)
unfolding replay_outcomes
replay_outcomes-Covers z cpus n rs w some_cpu =
    let (torn, p) = take-log_of z rs n in
    rw found (
      outcomes-Covers z (take n (log_of z rs)) (min cpus 12) _ (frames_of z 0 (whole z n rs))
        (whole z n rs)
        (frames_of-Read z (whole z n rs) [] torn (take n (log_of z rs)) 0 (whole-All z n rs w) refl
          p)
        (enough_chunks (length (frames_of z 0 (whole z n rs))) cpus some_cpu))
  where
    found :
        scan_frames (suc (length (take n (log_of z rs)))) 0 (take n (log_of z rs))
        ≡ frames_of z 0 (whole z n rs)
    found = scan_frames-whole z rs _ 0 n w (omega arith)

-- A log that holds the frames of `rs`, each of which fits, is cut after any number `n` of bytes, as a
-- crash may leave it. Opening it succeeds on any machine, in whatever order the workers' results
-- arrive, and the store then holds under every key what a new in-memory store holds that received by
-- `Put` the records whose frames are whole. Records of `rs` with one key, one clock and one writing
-- node are the same.
pub open_log_torn :
    (z : Zstd) (cpus n : ℕ) (rs : List Record) (node_id : Bytes) (now : ℤ) (group_commit : Bool)
    (received : List (Result ReplayError (List Record)))
    → All (Writable z) rs
    → UniqueStamps rs
    → 1 ≤ cpus
    → Arrives (replay_outcomes z cpus (take n (log_of z rs))) received
    → (ls : LogStore) × (open_log node_id now group_commit (take n (log_of z rs)) received ≡ ok ls)
      × ((k : Bytes)
          → lookup k ls.mem.records
            ≡ lookup k (put_all (new_memory_store node_id now) (whole z n rs)).records)
unfolding open_log
open_log_torn z cpus n rs node_id now gc received w unique some_cpu arrives =
    let cov =
      Arrives-Covers _ received (whole z n rs) arrives
        (replay_outcomes-Covers z cpus n rs w some_cpu) in
    let merged =
      merge_outcomes-joined (new_memory_store node_id now) received
        (λ o h. let (xs, e, _) = cov.sound o h in (xs, e)) in
    (
      record {
        mem = merge_records (new_memory_store node_id now) (joined received);
        file = take n (log_of z rs);
        buffer = [];
        failed = false;
        group_commit = gc;
      },
      rw merged refl,
      (λ k.
          lookup-merge_records (new_memory_store node_id now) (joined received) k
          ∙ winner k
          ∙ sym (lookup-put_all (new_memory_store node_id now) (whole z n rs) k)),
    )
  where
    winner :
        (k : Bytes)
        → winner_at k (lookup k (new_memory_store node_id now).records) (joined received)
          ≡ winner_at k (lookup k (new_memory_store node_id now).records) (whole z n rs)
    winner k =
        let cov =
          Arrives-Covers _ received (whole z n rs) arrives
            (replay_outcomes-Covers z cpus n rs w some_cpu) in
        let same = Covers-SameRecords received (whole z n rs) cov in
        unfold new_memory_store lookup in
        winner_at_same (joined received) (whole z n rs) k same
          (UniqueStamps-sub (joined received) rs (λ r h. whole-Has z n rs r (same.to r h)) unique)
