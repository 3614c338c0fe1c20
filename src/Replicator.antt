-- ===== src/Replicator.antt =====
-- `Replicator` of sdk/replicate.go: pull, push and sync over HTTP, the backoff and the live loop. What a
-- request is answered with, from its path, its collection and its body, is the argument `send`: the status
-- and the body of the response, or none when the request fails. The base URL, the times of the last
-- successes and the WebSocket session are left out.
pub mod Frames
pub mod Stored
pub mod Seen
pub mod Pulls
pub mod Backoff
pub mod Signing
use nell_db.Base.{
  ℕ, zero, suc, ◌+◌, ◌*◌, ◌%◌, ◌^◌, ◌==◌, Bool, true, false, Option, none, some, List, [], ◌∷◌,
  ◌++◌, not, ltb, length, take, drop, filter, if◌then◌else◌,
}
use nell_db.Base.Int.{ℤ, pos, ltb_ℤ, to_word, of_word}
use nell_db.Base.Bytes.{Bytes, get_be}
use nell_db.Base.Result.{Result, ok, err}
use nell_db.Hlc.{Hlc, zero_hlc, greater_than}
use nell_db.Record.{Record, DecodeError, unmarshal_binary}
use nell_db.Knowledge
use nell_db.Doc.{Library, is_internal_id}
use nell_db.DocDb.Engine.{Store, StoreError}
use nell_db.DocDb.{DocDb, DocError}
use nell_db.DocDb.Ingest.{ingest_remote, advance_clock}
use nell_db.DocDb.Opening.{greater}
use nell_db.Server.{wire_frame}

pub data ReplicateError : Type 0 where
  request_failed server_refused header_cut frame_cut bad_record response_cut : ReplicateError
  ingest_failed advance_failed : DocError → ReplicateError
  list_failed : StoreError → ReplicateError

-- "/sync/bin/check" and "/sync/bin/push"
pub data Endpoint : Type 0 where
  bin_check bin_push : Endpoint

abbrev pub Send : Type 0
Send = Endpoint → Bytes → Bytes → Option (ℕ × Bytes)

-- A frame for each record, as `push` writes them.
unfoldable pub write_frames : List Record → Bytes
write_frames [] = []
write_frames (rec ∷ recs) = wire_frame rec ++ write_frames recs

unfoldable pub max_sent : Hlc → List Record → Hlc
max_sent c [] = c
max_sent c (rec ∷ recs) = max_sent (greater rec.clock c) recs

-- `nextBackoff` on durations, which are int64.
unfoldable pub next_backoff : ℤ → ℤ → ℤ
next_backoff cur max =
    let next = of_word 64 (to_word 64 cur * 2 % 2 ^ 64) in if ltb_ℤ max next then max else next

module _ {S : Type 0} (ops : Store S) (lib : Library) (now : ℕ → ℤ) where
  -- The variables of the loop of `pull`, with the error that ended it.
  pub record Pulling : Type 0 where
    pub db : DocDb S
    pub ingested : ℕ
    pub max_seen : Hlc
    pub failure : Option ReplicateError

  unfoldable pub fail : Pulling → ReplicateError → Pulling
  fail p e = record p { failure = some e }

  unfoldable pub after_ingest : Pulling → Record → DocDb S × Result DocError (Unit {0}) → Pulling
  after_ingest p rec (d, err e) = fail (record p { db = d }) (ingest_failed e)
  after_ingest p rec (d, ok _) = record p {
    db = d;
    ingested = p.ingested + 1;
    max_seen = greater rec.clock p.max_seen;
  }

  unfoldable pub pull_record : Pulling → Record → Pulling
  pull_record p rec = after_ingest p rec (ingest_remote ops lib now rec p.db)

  unfoldable pub pull_decoded : Pulling → Result DecodeError Record → Pulling
  pull_decoded p (err e) = fail p bad_record
  pull_decoded p (ok rec) = pull_record p rec

  unfoldable pub unless_failed : Option ReplicateError → Pulling → Pulling → Pulling
  unless_failed none p next = next
  unless_failed (some e) p next = p

  -- The loop of `pull`. Every turn that goes on reads the four bytes of a header.
  unfoldable pub pull_frames : ℕ → Pulling → Bytes → Pulling
  pull_frames zero p b = p
  pull_frames (suc fuel) p b =
      let rec_len = get_be (take 4 b) in
      let rest = drop 4 b in
      let p' = pull_decoded p (unmarshal_binary (take rec_len rest)) in
      let next = unless_failed p'.failure p' (pull_frames fuel p' (drop rec_len rest)) in
      if length b == 0
      then p
      else if ltb (length b) 4
      then fail p header_cut
      else if ltb (length rest) rec_len
      then fail p frame_cut
      else next

  abbrev pub Replicates : Type 0
  Replicates = DocDb S × ℕ × Result ReplicateError (Unit {0})

  unfoldable pub advance_error : Result DocError (Unit {0}) → Result ReplicateError (Unit {0})
  advance_error (ok _) = ok tt
  advance_error (err e) = err (advance_failed e)

  -- The end of `pull`.
  unfoldable pub finish_pull : Pulling → Option ReplicateError → Replicates
  finish_pull p (some e) = (p.db, p.ingested, err e)
  finish_pull p none =
      let (d, res) = advance_clock ops lib now p.max_seen p.db in
      if greater_than p.max_seen zero_hlc
      then (d, p.ingested, advance_error res)
      else (p.db, p.ingested, ok tt)

  unfoldable pub pull_answer : DocDb S → Option (ℕ × Bytes) → Replicates
  pull_answer d none = (d, 0, err request_failed)
  pull_answer d (some (status, body)) =
      let p =
        pull_frames (suc (length body))
          (record { db = d; ingested = 0; max_seen = zero_hlc; failure = none }) body in
      if not (status == 200) then (d, 0, err server_refused) else finish_pull p p.failure

  -- `pull`
  unfoldable pub pull : Send → DocDb S → Replicates
  pull send d = pull_answer d (send bin_check d.collection (Knowledge.marshal_binary d.vector))

  unfoldable pub outgoing : List Record → List Record
  outgoing all = filter (λ rec. not (is_internal_id rec.id)) all

  unfoldable pub push_answer : DocDb S → List Record → Option (ℕ × Bytes) → Replicates
  push_answer d sent none = (d, 0, err request_failed)
  push_answer d sent (some (status, body)) =
      let top = max_sent zero_hlc sent in
      let advanced = if greater_than top zero_hlc then (advance_clock ops lib now top d).0 else d in
      if not (status == 200)
      then (d, 0, err server_refused)
      else if ltb (length body) 4
      then (d, 0, err response_cut)
      else (advanced, get_be (take 4 body), ok tt)

  unfoldable pub push_listed : Send → DocDb S → Result StoreError (List Record) → Replicates
  push_listed send d (err e) = (d, 0, err (list_failed e))
  push_listed send d (ok all) =
      push_answer d (outgoing all) (send bin_push d.collection (write_frames (outgoing all)))

  -- `push`
  unfoldable pub push : Send → DocDb S → Replicates
  push send d = push_listed send d (ops.list_all d.store d.collection)

  pub record Replicator : Type 0 where
    pub db : DocDb S
    pub push_errors : ℕ
    pub pull_errors : ℕ

  unfoldable pub failed_one : Result ReplicateError (Unit {0}) → ℕ
  failed_one (ok _) = 0
  failed_one (err e) = 1

  abbrev pub Counted : Type 0
  Counted = Replicator × ℕ × Result ReplicateError (Unit {0})

  -- `Pull` and `Push`, which count the errors.
  unfoldable pub counted_pull : Send → Replicator → Counted
  counted_pull send r =
      let (d, n, res) = pull send r.db in
      (record r { db = d; pull_errors = r.pull_errors + failed_one res }, n, res)

  unfoldable pub counted_push : Send → Replicator → Counted
  counted_push send r =
      let (d, n, res) = push send r.db in
      (record r { db = d; push_errors = r.push_errors + failed_one res }, n, res)

  unfoldable pub then_pull : Send → Counted → Replicator × ℕ × ℕ × Result ReplicateError (Unit {0})
  then_pull send (r, pushed, err e) = (r, 0, 0, err e)
  then_pull send (r, pushed, ok _) =
      let (r', pulled, res) = counted_pull send r in (r', pushed, pulled, res)

  -- `Sync`
  unfoldable pub sync : Send → Replicator → Replicator × ℕ × ℕ × Result ReplicateError (Unit {0})
  sync send r = then_pull send (counted_push send r)

  pub record LiveConfig : Type 0 where
    pub interval : ℤ
    pub push_every : ℕ
    pub backoff_max : ℤ

  -- The variables of the live loop.
  pub record Live : Type 0 where
    pub replicator : Replicator
    pub pull_count : ℕ
    pub backoff : ℤ

  unfoldable pub live_pull : LiveConfig → Live → Counted → Live
  live_pull cfg st (r, n, err e) = record st {
    replicator = r;
    backoff = next_backoff st.backoff cfg.backoff_max;
  }
  live_pull cfg st (r, n, ok _) = record st {
    replicator = r;
    pull_count = st.pull_count + 1;
    backoff = cfg.interval;
  }

  unfoldable pub live_push : LiveConfig → Send → Live → Counted → Live
  live_push cfg send st (r, n, err e) = record st {
    replicator = r;
    backoff = next_backoff st.backoff cfg.backoff_max;
  }
  live_push cfg send st (r, n, ok _) =
      live_pull cfg (record st { replicator = r }) (counted_pull send r)

  -- One turn of the loop of `Live`, when the timer fires.
  unfoldable pub live_turn : LiveConfig → Send → Live → Live
  live_turn cfg send st =
      let pushed = live_push cfg send st (counted_push send st.replicator) in
      let pulled = live_pull cfg st (counted_pull send st.replicator) in
      if st.pull_count % cfg.push_every == 0 then pushed else pulled
