-- ===== src/Replicator/Stored.antt =====
-- What the store of a database holds after `ingestRemote` and the loop of `pull` in sdk/replicate.go.
use nell_db.Base.{
  ℕ, ◌≡◌, refl, sym, ap, ◌∙◌, Bool, true, false, Option, some, List, [], ◌∷◌, All, Has, ◌⊎◌, inl,
  inr, arith, Bool-cases, if◌then◌else◌,
}
use nell_db.Base.Int.{ℤ}
use nell_db.Base.Bytes.{Bytes, eqb, eqb→eq, eqb_refl}
use nell_db.Base.Map.{insert}
use nell_db.Base.Result.{Result, ok, err}
use nell_db.Hlc.{Hlc}
use nell_db.Record.{Record}
use nell_db.Resolve.Order.{beats}
use nell_db.MemoryStore.{collection_or_default, key, with_collection}
use nell_db.MemoryStore.Put.{key_of, merge}
use nell_db.MemoryStore.Winner.{winner_at, winner_origin, winner-ge}
use nell_db.Doc.{Library, is_internal_id}
use nell_db.DocDb.Engine.{Store, StoreError, IsLawful, found, eqb-key, with_collection_named}
use nell_db.DocDb.{DocDb, put_in, observe_vector, meta_vector_id, meta_clock_id}
use nell_db.DocDb.Steps.{observe_vector-SameCache}
use nell_db.DocDb.Puts.{get-observe_vector, get-write_meta}
use nell_db.DocDb.Ingest.{ingest_remote, finish_ingest, advance_clock, write_meta_clock}
use nell_db.Replicator.{Pulling, pull_record}
use nell_db.Replicator.Frames.{Succeeds, pull_each, pull_record-ok}

-- A record of a user in the collection.
pub record IsUserRecord (c : Bytes) (r : Record) : Type 0 where
  pub plain : is_internal_id r.id ≡ false
  pub here : r.collection ≡ c

-- Bookkeeping records have another id than a user's.
pub not_meta_vector : (id : Bytes) → is_internal_id id ≡ false → eqb meta_vector_id id ≡ false
not_meta_vector id h = elim (Bool-cases (eqb meta_vector_id id)) [
  | inl e ↦
      let p : is_internal_id meta_vector_id ≡ false = rw (eqb→eq meta_vector_id id e) h in
      absurd (unfold is_internal_id in unfold eqb in cc (p))
  | inr e ↦ e
]

pub not_meta_clock : (id : Bytes) → is_internal_id id ≡ false → eqb meta_clock_id id ≡ false
not_meta_clock id h = elim (Bool-cases (eqb meta_clock_id id)) [
  | inl e ↦
      let p : is_internal_id meta_clock_id ≡ false = rw (eqb→eq meta_clock_id id e) h in
      absurd (unfold is_internal_id in unfold eqb in cc (p))
  | inr e ↦ e
]

pub found-ok : (o : Result StoreError Record) (w : Record) → found o ≡ some w → o ≡ ok w
found-ok (ok r) w e = cc (e)
found-ok (err x) w e = absurd (cc (e))

pub own_at :
    (c : Bytes) (rs : List Record) (r : Record)
    → All (IsUserRecord c) rs
    → Has r rs
    → IsUserRecord c r
own_at c [] r h i = absurd i
own_at c (x ∷ rs) r (p, h) (inl e) = rw (← e) p
own_at c (x ∷ rs) r (p, h) (inr i) = own_at c rs r h i

-- The records of users in a collection, under which each is stored as it came.
module _ (c : Bytes) (rs : List Record) (named : collection_or_default c ≡ c)
    (own : All (IsUserRecord c) rs) where
  whole : (r : Record) → Has r rs → with_collection r ≡ r
  whole r h =
      let here = (own_at c rs r own h).here in
      with_collection_named r (ap collection_or_default here ∙ named ∙ sym here)

  key_of-own : (r : Record) → Has r rs → key_of r ≡ key c r.id
  key_of-own r h =
      ap (λ (x : Record). key x.collection x.id) (whole r h)
      ∙ ap (λ x. key x r.id) (own_at c rs r own h).here

  -- The winner under a record's id is not beaten by the record.
  pub winner_at-level :
      (r : Record) (o : Option Record)
      → Has r rs
      → (w : Record) × (winner_at (key c r.id) o rs ≡ some w) × (beats r w ≡ false)
  winner_at-level r o h =
      let (w, e, b) = winner-ge (key c r.id) o rs r h (key_of-own r h) in
      (w, e, rw (whole r h) at b)

  -- The winner was there before or is one of the records.
  pub winner_at-source :
      (id : Bytes) (o : Option Record) (w : Record)
      → winner_at (key c id) o rs ≡ some w
      → (o ≡ some w) ⊎ (Has w rs × (w.id ≡ id))
  winner_at-source id o w e = elim (winner_origin (key c id) o rs w e) [
    | inl p ↦ inl p
    | inr (r, h, p, q) ↦
        let same : r ≡ w = sym (whole r h) ∙ p in
        let ids : eqb r.id id ≡ true =
          sym (eqb-key c r.id id)
          ∙ ap (λ k. eqb k (key c id)) (sym (key_of-own r h) ∙ q)
          ∙ eqb_refl (key c id) in
        inr (rw (← same) h, ap (λ (x : Record). x.id) (sym same) ∙ eqb→eq r.id id ids)
  ]

module _ {S : Type 0} (ops : Store S) (lib : Library) (now : ℕ → ℤ) (lawful : IsLawful ops)
    (succeeds : Succeeds ops) where
  -- What the store holds under an id of the database's collection.
  abbrev pub held : DocDb S → Bytes → Option Record
  held d id = found (ops.get d.store d.collection id)

  held-put_own :
      (s : S) (r : Record) (id : Bytes)
      → collection_or_default r.collection ≡ r.collection
      → found (ops.get (ops.put s r).0 r.collection id) ≡ (
          if eqb r.id id
          then some (merge (found (ops.get s r.collection r.id)) r)
          else found (ops.get s r.collection id))
  unfolding Succeeds
  held-put_own s r id own = elim (Bool-cases (eqb r.id id)) [
    | inl e ↦
        let (res, done) = succeeds s r in
        rw e (
          ap (λ j. found (ops.get (ops.put s r).0 r.collection j)) (sym (eqb→eq r.id id e))
          ∙ ap found (lawful.stored s r res own done))
    | inr e ↦ rw e (ap found (lawful.untouched s r id own e))
  ]

  held-put :
      (s : S) (r : Record) (id c : Bytes)
      → r.collection ≡ c
      → collection_or_default c ≡ c
      → found (ops.get (ops.put s r).0 c id) ≡ (
          if eqb r.id id then some (merge (found (ops.get s c r.id)) r) else found (ops.get s c id))
  held-put s r id c here named =
      ap (λ x. found (ops.get (ops.put s r).0 x id)) (sym here)
      ∙ held-put_own s r id (ap collection_or_default here ∙ named ∙ sym here)
      ∙ ap
          (λ x.
            if eqb r.id id
            then some (merge (found (ops.get s x r.id)) r)
            else found (ops.get s x id))
          here

  -- What an ingested record leaves under each id of a user's document.
  held-finish_ingest :
      (d : DocDb S) (r : Record) (o : Result StoreError (Bool × Record)) (id : Bytes)
      → is_internal_id id ≡ false
      → collection_or_default d.collection ≡ d.collection
      → (held (finish_ingest ops lib now d r o).0 id ≡ held d id)
        × ((finish_ingest ops lib now d r o).0.collection ≡ d.collection)
  unfolding finish_ingest
  held-finish_ingest d r (err e) id user named = (refl, refl)
  held-finish_ingest d r (ok res) id user named =
      let d' = record d { revs = insert r.id _ d.revs } in
      let same = (observe_vector-SameCache ops lib now d' r.updated_by r.clock).1 in
      (
        ap (λ c. found (ops.get (observe_vector ops lib now d' r.updated_by r.clock).store c id))
              same
            ∙ ap found (
                get-observe_vector ops lib now lawful d' r.updated_by r.clock id named
                  (not_meta_vector id user)),
        same,
      )

  held-ingest_remote :
      (d : DocDb S) (r : Record) (id : Bytes)
      → IsUserRecord d.collection r
      → is_internal_id id ≡ false
      → collection_or_default d.collection ≡ d.collection
      → (held (ingest_remote ops lib now r d).0 id
          ≡ (if eqb r.id id then some (merge (held d id) r) else held d id))
        × ((ingest_remote ops lib now r d).0.collection ≡ d.collection)
  unfolding ingest_remote put_in
  held-ingest_remote d r id own user named =
      let d' = record d { store = (ops.put d.store r).0 } in
      let (same, c) = held-finish_ingest d' r (ops.put d.store r).1 id user named in
      rw own.plain (same ∙ held-put d.store r id d.collection own.here named ∙ at_id, c)
    where
      at_id :
          (if eqb r.id id
            then some (merge (found (ops.get d.store d.collection r.id)) r)
            else found (ops.get d.store d.collection id))
          ≡ (if eqb r.id id then some (merge (held d id) r) else held d id)
      at_id = elim (Bool-cases (eqb r.id id)) [
        | inl e ↦ rw e (ap (λ j. some (merge (held d j) r)) (eqb→eq r.id id e))
        | inr e ↦ rw e refl
      ]

  pub held-pull_each :
      (p : Pulling ops lib now) (rs : List Record) (id c : Bytes)
      → p.db.collection ≡ c
      → collection_or_default c ≡ c
      → All (IsUserRecord c) rs
      → is_internal_id id ≡ false
      → (held (pull_each ops lib now p rs).db id ≡ winner_at (key c id) (held p.db id) rs)
        × ((pull_each ops lib now p rs).db.collection ≡ c)
  unfolding pull_each winner_at
  held-pull_each p [] id c at named own user = (refl, at)
  held-pull_each p (r ∷ rs) id c at named (one, own) user =
      let p' = pull_record ops lib now p r in
      let (_, stored, _) = pull_record-ok ops lib now p r succeeds in
      let (holds, same) =
        held-ingest_remote p.db r id (record { plain = one.plain; here = one.here ∙ sym at }) user
          (ap collection_or_default at ∙ named ∙ sym at) in
      let (rest, c') =
        held-pull_each p' rs id c (ap (λ d. d.collection) stored ∙ same ∙ at) named own user in
      (rest ∙ ap (λ o. winner_at (key c id) o rs) (ap (λ d. held d id) stored ∙ holds ∙ under), c')
    where
      whole : with_collection r ≡ r
      whole = with_collection_named r (ap collection_or_default one.here ∙ named ∙ sym one.here)

      same_key : eqb (key_of r) (key c id) ≡ eqb r.id id
      same_key =
          ap (λ (x : Record). eqb (key x.collection x.id) (key c id)) whole
          ∙ ap (λ x. eqb (key x r.id) (key c id)) one.here
          ∙ eqb-key c r.id id

      under : (if eqb r.id id then some (merge (held p.db id) r) else held p.db id) ≡ (
          if eqb (key_of r) (key c id)
          then some (merge (held p.db id) (with_collection r))
          else held p.db id)
      under = rw (same_key, whole) refl

  pub held-advance_clock :
      (c : Hlc) (d : DocDb S) (id : Bytes)
      → is_internal_id id ≡ false
      → collection_or_default d.collection ≡ d.collection
      → ops.get (advance_clock ops lib now c d).0.store d.collection id
        ≡ ops.get d.store d.collection id
  unfolding advance_clock write_meta_clock
  held-advance_clock c d id user named = ground (
    arith,
    get-write_meta ops lib now lawful (record d { last_seen_clock = c }) meta_clock_id (c ∷ [])
        (lib.marshal_clock c) id named (not_meta_clock id user),
  )
