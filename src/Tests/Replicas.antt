-- ===== src/Tests/Replicas.antt =====
-- A replicator that pulls, and that fails, and a subscriber of the changes feed.
use nell_db.Base.{
  ℕ, zero, suc, ◌+◌, ◌*◌, ◌^◌, ◌<◌, ◌≤◌, ◌≡◌, ◌≢◌, refl, ap, sym, ◌∷◌, [], ◌++◌, Bool, true, false,
  Option, none, some, List, length, filter, min, arith, Has, ◌⊎◌, inl, inr,
}
use nell_db.Base.Int.{ℤ, pos}
use nell_db.Base.Bytes.{Bytes}
use nell_db.Base.Result.{ok}
use nell_db.Record.{Record}
use nell_db.Resolve.Order.{beats}
use nell_db.MemoryStore.{collection_or_default}
use nell_db.Doc.{is_internal_id}
use nell_db.DocDb.Engine.{memory_engine-IsLawful}
use nell_db.Server.{is_missing, stream_missing}
use nell_db.Doc.Feed.{Change}
use nell_db.Doc.Changes.{
  Feed, Reach, IsSound, new_feed, publish, waiting, forwarding, published, takes, sends, opened,
  next, Reach-IsSound,
}
use nell_db.Replicator.{Send, Live, LiveConfig, pull}
use nell_db.Replicator.Frames.{Succeeds}
use nell_db.Replicator.Seen.{IsPlain}
use nell_db.Replicator.Pulls.{pull-pull}
use nell_db.Replicator.Backoff.{live_run, backoff-live_run}
use nell_db.Tests.Databases.{docs, engine, times, stocked}
use nell_db.Tests.Servers.{first-Sendable}
use nell_db.Tests.Samples.{first}

engine-Succeeds : Succeeds engine
unfolding Succeeds nell_db.DocDb.Engine.memory_engine
engine-Succeeds = λ s r. (_, refl)

-- A server that has one record and answers the check of an empty vector.
abbrev answers : Send
answers = λ path col body. some (200, stream_missing [] (first ∷ []))

first-IsPlain : IsPlain first
unfolding nell_db.Doc.is_internal_id nell_db.Doc.is_empty nell_db.Hlc.greater_than
    nell_db.Base.Int.eqb_ℤ nell_db.Base.Int.ltb_ℤ
first-IsPlain = record { plain = refl; written = refl; stamped = refl }

stocked-named : collection_or_default stocked.collection ≡ stocked.collection
unfolding collection_or_default
stocked-named = refl

first-here : first.collection ≡ stocked.collection
first-here = refl

pull-pull_example :
    ((pull engine docs times answers stocked).1 ≡ length (filter (is_missing []) (first ∷ [])))
    × ((pull engine docs times answers stocked).2 ≡ ok tt)
    × ((r : Record)
        → Has r (first ∷ [])
        → is_missing [] r ≡ true
        → (w : Record) × (engine.get
              (pull engine docs times answers stocked).0.store
              stocked.collection
              r.id
            ≡ ok w)
          × (beats r w ≡ false))
    × ((id : Bytes) (w : Record)
        → is_internal_id id ≡ false
        → engine.get (pull engine docs times answers stocked).0.store stocked.collection id ≡ ok w
        → (engine.get stocked.store stocked.collection id ≡ ok w)
          ⊎ (Has w (first ∷ []) × (is_missing [] w ≡ true) × (w.id ≡ id)))
    × (stream_missing (pull engine docs times answers stocked).0.vector (first ∷ []) ≡ [])
pull-pull_example =
    pull-pull engine docs times (memory_engine-IsLawful (λ s c v n. [])) engine-Succeeds answers
      stocked (first ∷ []) stocked-named refl (first-Sendable, tt) (first-IsPlain, tt)
      (first-here, tt) (λ c. (0 ∷ [], refl))

abbrev fails : Send
fails = λ path col body. none

abbrev config : LiveConfig engine docs times
config = record { interval = pos 5; push_every = 1; backoff_max = pos 60 }

abbrev live : Live engine docs times
live = record {
  replicator = record { db = stocked; push_errors = 0; pull_errors = 0 };
  pull_count = 0;
  backoff = pos 5;
}

abbrev outage : List Send
outage = fails ∷ fails ∷ fails ∷ fails ∷ []

none_pulled : (live_run engine docs times config outage live).pull_count ≡ 0
unfolding live_run nell_db.Replicator.live_turn nell_db.Replicator.live_push
    nell_db.Replicator.counted_push nell_db.Replicator.push nell_db.Replicator.push_listed
    nell_db.DocDb.Engine.memory_engine nell_db.Replicator.push_answer
none_pulled = refl

backoff-live_run_example :
    (live_run engine docs times config outage live).backoff ≡ pos (min 60 (5 * 2 ^ length outage))
backoff-live_run_example =
    backoff-live_run engine docs times config 60 5 outage live refl (omega arith) (omega arith) refl
      none_pulled

abbrev change : Change
change = record { id = 49 ∷ []; rev = 50 ∷ []; deleted = false; doc = [] }

abbrev sent_once : Feed
sent_once = record {
  accepted = change ∷ [];
  src = [];
  place = waiting;
  draining = false;
  cancelled = false;
  out = change ∷ [];
  received = [];
}

sent_once-Reach : Reach sent_once
unfolding new_feed publish nell_db.Doc.Feed.try_send
sent_once-Reach =
    let f₁ = publish change new_feed in
    let f₂ : Feed = record f₁ { src = []; place = forwarding change } in
    next
      (next (next opened (published new_feed change (λ e. absurd (cc))))
        (takes f₁ change [] refl refl))
      (sends f₂ change refl (omega arith))

Reach-IsSound_example : IsSound sent_once
Reach-IsSound_example = Reach-IsSound sent_once-Reach
