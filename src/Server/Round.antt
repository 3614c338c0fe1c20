-- ===== src/Server/Round.antt =====
-- A round of anti-entropy between the binary endpoints of server/main.go: one server answers a check, and
-- another receives the answer as a push.
use nell_db.Base.{
  ◌⊎◌, inl, inr, suc, ◌<◌, ◌^◌, ◌≡◌, refl, sym, ap, ◌∙◌, true, false, some, List, [], ◌∷◌, All, Has,
  length, filter, arith, append-nil,
}
use nell_db.Base.Bytes.{Bytes}
use nell_db.Base.Map.{lookup, Distinct}
use nell_db.Base.Result.{ok}
use nell_db.Base.Sort.{Has-sort, sort-Has}
use nell_db.Base.Filter.{Has-filter, filter-Has}
use nell_db.Record.{Record}
use nell_db.Knowledge
use nell_db.Knowledge.{KnowledgeVector, unseen}
use nell_db.Knowledge.Codec.{FitsEntry, unmarshal_binary-marshal_binary_kv}
use nell_db.Resolve.Order.{beats}
use nell_db.MemoryStore
use nell_db.MemoryStore.{MemoryStore, collection_or_default, with_collection}
use nell_db.MemoryStore.Put.{key_of}
use nell_db.MemoryStore.Invariant.{IsValid}
use nell_db.MemoryStore.Listing.{list_all_exact}
use nell_db.MemoryStore.Winner.{winner-ge, winner_origin}
use nell_db.MemoryStore.Convergence.{put_all, lookup-put_all}
use nell_db.LogStore.Compaction.{All-Has}
use nell_db.LogStore.Recovery.{with_collection-named}
use nell_db.Server.{
  Server, Pushed, memory_store, sort_by_clock, is_missing, record_seen, push_record, push_records,
  handle_bin_check, handle_bin_push,
}
use nell_db.Server.Binary.{Sendable, wire, stream_missing-wire, push_frames-wire}

-- The records that a check with the vector `kv` is answered with, in order.
unfoldable pub answer : KnowledgeVector → Bytes → MemoryStore → List Record
answer kv col s =
    filter (is_missing kv) (sort_by_clock (MemoryStore.list_all s (collection_or_default col)))

push_records-store :
    (p : Pushed memory_store) (rs : List Record)
    → (push_records memory_store p rs).server.store ≡ put_all p.server.store rs
unfolding push_records push_record record_seen put_all
push_records-store p [] = refl
push_records-store p (r ∷ rs) = push_records-store (push_record memory_store p r) rs

default_again :
    (c : Bytes) → collection_or_default (collection_or_default c) ≡ collection_or_default c
unfolding collection_or_default
default_again [] = refl
default_again (b ∷ bs) = refl

-- On a valid store the answer is made of the records of the collection that the vector has not seen.
pub answer_exact :
    (kv : KnowledgeVector) (col : Bytes) (s : MemoryStore) (r : Record)
    → IsValid s
    → (Has r (answer kv col s)
        → (k : Bytes) × (lookup k s.records ≡ some r)
          × (r.collection ≡ collection_or_default col)
          × (unseen kv r.updated_by r.clock ≡ true))
      × ((k : Bytes)
          → lookup k s.records ≡ some r
          → r.collection ≡ collection_or_default col
          → unseen kv r.updated_by r.clock ≡ true
          → Has r (answer kv col s))
unfolding answer sort_by_clock is_missing
answer_exact kv col s r v = (
  (λ h.
      let (i, e) =
        filter-Has (is_missing kv) r
          (sort_by_clock (MemoryStore.list_all s (collection_or_default col))) h in
      let (k, f, p) = (list_all_exact s (collection_or_default col) r v).0 (sort-Has _ r _ i) in
      (k, f, p ∙ default_again col, e)),
  (λ k f p e.
      Has-filter (is_missing kv) r
        (sort_by_clock (MemoryStore.list_all s (collection_or_default col)))
        (Has-sort _ r _
          ((list_all_exact s (collection_or_default col) r v).1 k f (p ∙ sym (default_again col))))
        e),
)

module _ (sender receiver : Server MemoryStore) (kv : KnowledgeVector) (col : Bytes)
    (v : IsValid sender.store) where
  abbrev sent : List Record
  sent = answer kv col sender.store

  checked :
      Distinct kv
      → All FitsEntry kv
      → length kv < 2 ^ 16
      → handle_bin_check memory_store sender true col (Knowledge.marshal_binary kv) ≡ ok (wire sent)
  unfolding handle_bin_check answer
  checked distinct fits few =
      rw (rw append-nil at (unmarshal_binary-marshal_binary_kv kv [] distinct fits few))
        (ap ok (stream_missing-wire kv _))

  pushed :
      All Sendable sent
      → (handle_bin_push memory_store receiver true (wire sent)).0.store
        ≡ put_all receiver.store sent
  unfolding handle_bin_push
  pushed w =
      ap (λ (p : Pushed memory_store). p.server.store)
        (push_frames-wire memory_store (suc (length (wire sent)))
          (record { server = receiver; accepted = []; total = 0 }) sent w (omega arith))
      ∙ push_records-store (record { server = receiver; accepted = []; total = 0 }) sent

  sent-Sendable :
      ((k : Bytes) (r : Record) → lookup k sender.store.records ≡ some r → Sendable r)
      → All Sendable sent
  sent-Sendable fits =
      All-Has Sendable (answer kv col sender.store)
        (λ r h. let (k, e, _, _) = (answer_exact kv col sender.store r v).0 h in fits k r e)

  plain_key :
      (k : Bytes) (r : Record)
      → lookup k sender.store.records ≡ some r
      → (with_collection r ≡ r) × (key_of r ≡ k)
  plain_key k r e =
      let st = v.stored k r e in
      let p = with_collection-named r st.named in (p, rw p (sym st.keyed))

  -- What the receiver holds after the push.
  delivered :
      (k : Bytes) (r : Record)
      → lookup k sender.store.records ≡ some r
      → Has r sent
      → (w : Record) × (lookup k (put_all receiver.store sent).records ≡ some w)
        × (beats r w ≡ false)
  delivered k r e h =
      let (p, q) = plain_key k r e in
      let (w, found, best) = winner-ge k (lookup k receiver.store.records) sent r h q in
      (w, lookup-put_all receiver.store sent k ∙ found, rw p at best)

  received_from :
      (k : Bytes) (w : Record)
      → lookup k (put_all receiver.store sent).records ≡ some w
      → (lookup k receiver.store.records ≡ some w) ⊎ (lookup k sender.store.records ≡ some w)
  received_from k w e =
      elim (winner_origin k (lookup k receiver.store.records) sent w
        (sym (lookup-put_all receiver.store sent k) ∙ e)) [
          | inl p ↦ inl p
          | inr (r, h, p, q) ↦
              let (j, found, _, _) = (answer_exact kv col sender.store r v).0 h in
              let (same, under) = plain_key j r found in
              let here : j ≡ k = sym under ∙ q in inr (rw (← here, ← p, same) found)
        ]

-- A round of anti-entropy over the binary endpoints: a server with a valid store answers a check with the
-- vector `kv`, and another server, in any state, receives the answer as a push. The check succeeds.
-- Afterwards the receiver holds, under the key of every record of the collection that the vector has
-- not seen, a record that the sender's does not beat; and whatever it holds under any key it
-- held before, or the sender holds there. The vector and the sender's records fit their binary forms.
pub bin_round :
    (sender receiver : Server MemoryStore) (kv : KnowledgeVector) (col : Bytes)
    → IsValid sender.store
    → Distinct kv
    → All FitsEntry kv
    → length kv < 2 ^ 16
    → ((k : Bytes) (r : Record) → lookup k sender.store.records ≡ some r → Sendable r)
    → (body : Bytes) × (handle_bin_check memory_store sender true col (Knowledge.marshal_binary kv)
        ≡ ok body)
      × ((k : Bytes) (r : Record)
          → lookup k sender.store.records ≡ some r
          → r.collection ≡ collection_or_default col
          → unseen kv r.updated_by r.clock ≡ true
          → (w : Record) × (lookup k
                (handle_bin_push memory_store receiver true body).0.store.records
              ≡ some w)
            × (beats r w ≡ false))
      × ((k : Bytes) (w : Record)
          → lookup k (handle_bin_push memory_store receiver true body).0.store.records ≡ some w
          → (lookup k receiver.store.records ≡ some w) ⊎ (lookup k sender.store.records ≡ some w))
bin_round sender receiver kv col v distinct fits few sendable = (
  wire (answer kv col sender.store),
  checked sender receiver kv col v distinct fits few,
  (λ k r e c u. rw after (
      delivered sender receiver kv col v k r e ((answer_exact kv col sender.store r v).1 k e c u))),
  (λ k w e. received_from sender receiver kv col v k w (rw after at e)),
)
  where
    after :
        (handle_bin_push memory_store receiver true (wire (answer kv col sender.store))).0.store
        ≡ put_all receiver.store (answer kv col sender.store)
    after = pushed sender receiver kv col v (sent-Sendable sender receiver kv col v sendable)
