-- ===== src/Replicator/Pulls.antt =====
-- A pull of sdk/replicate.go from a server that answers the check of its vector.
use nell_db.Base.{
  ℕ, suc, ◌≡◌, refl, sym, ap, ◌∙◌, ◌⊎◌, Bool, true, false, Option, none, some, List, [], ◌∷◌, All,
  Has, length, filter, arith, Bool-cases, inl, inr,
}
use nell_db.Base.Int.{ℤ}
use nell_db.Base.Bytes.{Bytes}
use nell_db.Base.Filter.{All-filter, Has-filter, filter-Has}
use nell_db.Base.Result.{Result, ok, err}
use nell_db.Hlc.{Hlc, greater_than, zero_hlc}
use nell_db.Record.{Record}
use nell_db.Knowledge
use nell_db.Knowledge.{KnowledgeVector, unseen}
use nell_db.Server.{is_missing, stream_missing}
use nell_db.Server.Binary.{Sendable, wire, stream_missing-wire}
use nell_db.Doc.{Library, is_internal_id}
use nell_db.DocDb.Engine.{Store, StoreError, IsLawful, found}
use nell_db.MemoryStore.{collection_or_default, key}
use nell_db.MemoryStore.Winner.{winner_at}
use nell_db.Resolve.Order.{beats}
use nell_db.Replicator.Stored.{
  IsUserRecord, own_at, found-ok, winner_at-level, winner_at-source, held-pull_each,
  held-advance_clock,
}
use nell_db.DocDb.{DocDb, put_in, store_error, write_meta, meta_clock_id, meta_record, next_clock}
use nell_db.DocDb.Ingest.{advance_clock, write_meta_clock, vector-write_meta}
use nell_db.Replicator.{Pulling, Send, bin_check, finish_pull, advance_error, pull_answer, pull}
use nell_db.Replicator.Frames.{Succeeds, pull_each, pull_frames-wire}
use nell_db.Replicator.Seen.{IsPlain, pull_each-count, nothing_missing, none_unseen}

wire_nil : wire [] ≡ []
unfolding wire
wire_nil = refl

module _ {S : Type 0} (ops : Store S) (lib : Library) (now : ℕ → ℤ) (lawful : IsLawful ops)
    (succeeds : Succeeds ops) where
  store_error-ok :
      (o : Result StoreError (Bool × Record)) (res : Bool × Record)
      → o ≡ ok res
      → store_error o ≡ ok tt
  unfolding store_error
  store_error-ok (ok r) res e = refl
  store_error-ok (err x) res e = absurd (cc)

  write_meta-ok :
      (d : DocDb S) (id : Bytes) (seen : List Hlc) (o : Option Bytes) (payload : Bytes)
      → o ≡ some payload
      → (write_meta ops lib now d id seen o).1 ≡ ok tt
  unfolding write_meta put_in Succeeds next_clock
  write_meta-ok d id seen none payload e = absurd (cc)
  write_meta-ok d id seen (some x) payload e =
      let (d', clk) = next_clock ops lib now d seen in
      let (res, stored) = succeeds d.store (meta_record d' id x clk) in store_error-ok _ res stored

  advance_clock-ok :
      (c : Hlc) (d : DocDb S) (payload : Bytes)
      → lib.marshal_clock c ≡ some payload
      → ((advance_clock ops lib now c d).1 ≡ ok tt)
        × ((advance_clock ops lib now c d).0.vector ≡ d.vector)
  unfolding advance_clock write_meta_clock
  advance_clock-ok c d payload e =
      let d' = record d { last_seen_clock = c } in
      let done = write_meta-ok d' meta_clock_id (c ∷ []) (lib.marshal_clock c) payload e in
      let same = vector-write_meta ops lib now d' meta_clock_id (c ∷ []) (lib.marshal_clock c) in
      ground (arith, done, same)

  finish_pull-ok :
      (p : Pulling ops lib now) (payload : Bytes)
      → lib.marshal_clock p.max_seen ≡ some payload
      → ((finish_pull ops lib now p none).0.vector ≡ p.db.vector)
        × ((finish_pull ops lib now p none).1 ≡ p.ingested)
        × ((finish_pull ops lib now p none).2 ≡ ok tt)
  unfolding finish_pull advance_error
  finish_pull-ok p payload e =
      let (fine, same) = advance_clock-ok p.max_seen p.db payload e in
      elim (Bool-cases (greater_than p.max_seen zero_hlc)) [
        | inl t ↦ rw (t, fine) (same, refl, refl)
        | inr t ↦ rw t (refl, refl, refl)
      ]

  user_records :
      (c : Bytes) (rs : List Record)
      → All IsPlain rs
      → All (λ (r : Record). r.collection ≡ c) rs
      → All (IsUserRecord c) rs
  user_records c [] plain here = tt
  user_records c (r ∷ rs) (p, plain) (h, here) =
      (record { plain = p.plain; here = h }, user_records c rs plain here)

  get-finish_pull :
      (p : Pulling ops lib now) (id : Bytes)
      → is_internal_id id ≡ false
      → collection_or_default p.db.collection ≡ p.db.collection
      → ops.get (finish_pull ops lib now p none).0.store p.db.collection id
        ≡ ops.get p.db.store p.db.collection id
  unfolding finish_pull
  get-finish_pull p id user named =
      ground (arith, held-advance_clock ops lib now lawful succeeds p.max_seen p.db id user named)

  -- A pull from a server that answers the check of the vector with the records of the list that the
  -- vector has not seen succeeds and counts them. Afterwards the store holds, under the id of each of
  -- them, a record that it does not beat, and under the id of any user's document what it held before
  -- or one of them; and the vector has seen every record of the list: the same server answers the next
  -- check with nothing. The records are those of users in the database's collection and fit their
  -- frames, the store keeps the promises of a store and its `Put` reports no error, and a clock can
  -- be encoded.
  pub pull-pull :
      (send : Send) (d : DocDb S) (all : List Record)
      → collection_or_default d.collection ≡ d.collection
      → send bin_check d.collection (Knowledge.marshal_binary d.vector)
        ≡ some (200, stream_missing d.vector all)
      → All Sendable all
      → All IsPlain all
      → All (λ (r : Record). r.collection ≡ d.collection) all
      → ((c : Hlc) → (payload : Bytes) × (lib.marshal_clock c ≡ some payload))
      → ((pull ops lib now send d).1 ≡ length (filter (is_missing d.vector) all))
        × ((pull ops lib now send d).2 ≡ ok tt)
        × ((r : Record)
            → Has r all
            → is_missing d.vector r ≡ true
            → (w : Record) × (ops.get (pull ops lib now send d).0.store d.collection r.id ≡ ok w)
              × (beats r w ≡ false))
        × ((id : Bytes) (w : Record)
            → is_internal_id id ≡ false
            → ops.get (pull ops lib now send d).0.store d.collection id ≡ ok w
            → (ops.get d.store d.collection id ≡ ok w)
              ⊎ (Has w all × (is_missing d.vector w ≡ true) × (w.id ≡ id)))
        × (stream_missing (pull ops lib now send d).0.vector all ≡ [])
  pull-pull send d all named answered fits plain here encodes = (
    ap (λ x. x.1) reached ∙ ingested ∙ count,
    ap (λ x. x.2) reached ∙ fine,
    (λ r h missing.
        let i = Has-filter (is_missing d.vector) r all h missing in
        let (w, e, level) =
          winner_at-level d.collection rs named own r (found (ops.get d.store d.collection r.id))
            i in
        (w, found-ok _ w (after r.id (own_at d.collection rs r own i).plain ∙ e), level)),
    (λ id w user e.
        elim (winner_at-source d.collection rs named own id
          (found (ops.get d.store d.collection id)) w (sym (after id user) ∙ ap found e)) [
            | inl before ↦ inl (found-ok _ w before)
            | inr (i, same_id) ↦
                let (h, missing) = filter-Has (is_missing d.vector) w all i in
                inr (h, missing, same_id)
          ]),
    ap (λ x. stream_missing x.0.vector all) reached
        ∙ stream_missing-wire _ all
        ∙ ap wire (
            ap (λ kv. filter (is_missing kv) all) same
            ∙ nothing_missing ops lib now succeeds p.db.vector all
                (none_unseen ops lib now succeeds p₀ all plain))
        ∙ wire_nil,
  )
    where
      rs : List Record
      rs = filter (is_missing d.vector) all

      own : All (IsUserRecord d.collection) rs
      own =
          All-filter (is_missing d.vector) (IsUserRecord d.collection) all
            (user_records d.collection all plain here)

      p₀ : Pulling ops lib now
      p₀ = record { db = d; ingested = 0; max_seen = zero_hlc; failure = none }

      p : Pulling ops lib now
      p = pull_each ops lib now p₀ rs

      count : p.ingested ≡ length rs
      count = let (n, _) = pull_each-count ops lib now succeeds p₀ rs in omega (arith, n)

      done :
          ((finish_pull ops lib now p none).0.vector ≡ p.db.vector)
          × ((finish_pull ops lib now p none).1 ≡ p.ingested)
          × ((finish_pull ops lib now p none).2 ≡ ok tt)
      done = let (payload, enc) = encodes p.max_seen in finish_pull-ok p payload enc

      same : (finish_pull ops lib now p none).0.vector ≡ p.db.vector
      same = done.0

      ingested : (finish_pull ops lib now p none).1 ≡ p.ingested
      ingested = done.1

      fine : (finish_pull ops lib now p none).2 ≡ ok tt
      fine = done.2

      reached : pull ops lib now send d ≡ finish_pull ops lib now p none
      reached =
          unfold pull in
          unfold pull_answer in
          rw
            (
              answered,
              stream_missing-wire d.vector all,
              pull_frames-wire ops lib now (suc (length (wire rs))) p₀ rs
                  (All-filter (is_missing d.vector) Sendable all fits) succeeds refl (omega arith),
            )
            (ap (finish_pull ops lib now p) (pull_each-count ops lib now succeeds p₀ rs).1)

      after :
          (id : Bytes)
          → is_internal_id id ≡ false
          → found (ops.get (pull ops lib now send d).0.store d.collection id)
            ≡ winner_at (key d.collection id) (found (ops.get d.store d.collection id)) rs
      after id user =
          let (holds, at) =
            held-pull_each ops lib now lawful succeeds p₀ rs id d.collection refl named own user in
          ap (λ x. found (ops.get x.0.store d.collection id)) reached
          ∙ ap (λ c. found (ops.get (finish_pull ops lib now p none).0.store c id)) (sym at)
          ∙ ap found (get-finish_pull p id user (ap collection_or_default at ∙ named ∙ sym at))
          ∙ holds
