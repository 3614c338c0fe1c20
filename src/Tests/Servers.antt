-- ===== src/Tests/Servers.antt =====
-- The endpoints of the server.
use nell_db.Base.{
  ◌≡◌, ◌⊎◌, ◌<◌, refl, ◌∷◌, [], true, false, none, some, List, Has, inl, inr, length, take, filter,
  arith, Bool-cases,
}
use nell_db.Base.Int.{pos}
use nell_db.Base.Bytes.{Bytes, eqb}
use nell_db.Base.Map.{lookup, insert}
use nell_db.Base.Result.{ok, err}
use nell_db.Hlc.{Hlc, greater_than, zero_hlc}
use nell_db.Record.{Record, encoded_size}
use nell_db.Record.Truncation.{length-marshal_binary}
use nell_db.Knowledge
use nell_db.Knowledge.{KnowledgeVector, unseen}
use nell_db.Resolve.Order.{beats}
use nell_db.MemoryStore.{
  MemoryStore, new_memory_store, put, put_at, put_new, with_collection, collection_or_default, key,
}
use nell_db.Server.{
  Server, memory_store, is_missing, check_page, method_not_allowed, bad_request, request_too_large,
  Body, decoded, malformed, too_large, handle_bin_check, handle_bin_push, handle_pull,
}
use nell_db.Server.Binary.{Sendable}
use nell_db.Server.Round.{bin_round}
use nell_db.Server.Check.{limit_of, check_page_first, handle_pull_exact}
use nell_db.Tests.Samples.{first, second, clock_2, node_b}
use nell_db.Tests.Codecs.{first-Encodable}
use nell_db.Tests.Stores.{one, one-IsValid}

abbrev sender : Server MemoryStore
sender = record { store = one; kv = [] }

abbrev pub receiver : Server MemoryStore
receiver = record { store = new_memory_store node_b (pos 400); kv = [] }

abbrev vector : KnowledgeVector
vector = (node_b, clock_2) ∷ []

pub first-Sendable : Sendable first
first-Sendable = record {
  encodable = first-Encodable;
  fits = rw (length-marshal_binary first) (unfold encoded_size in omega arith);
}

one-Sendable : (k : Bytes) (r : Record) → lookup k one.records ≡ some r → Sendable r
unfolding put put_at put_new new_memory_store lookup insert with_collection collection_or_default
one-Sendable k r e = elim (Bool-cases (eqb (key (120 ∷ []) (49 ∷ [])) k)) [
  | inl t ↦
      let p : some first ≡ some r = rw t at e in let q : first ≡ r = cc in rw (← q) first-Sendable
  | inr f ↦ let p : none ≡ some r = rw f at e in cc (p)
]

bin_round_example :
    (body : Bytes) × (handle_bin_check memory_store sender true first.collection
        (Knowledge.marshal_binary vector)
      ≡ ok body)
    × ((k : Bytes) (r : Record)
        → lookup k sender.store.records ≡ some r
        → r.collection ≡ collection_or_default first.collection
        → unseen vector r.updated_by r.clock ≡ true
        → (w : Record) × (lookup k (handle_bin_push memory_store receiver true body).0.store.records
            ≡ some w)
          × (beats r w ≡ false))
    × ((k : Bytes) (w : Record)
        → lookup k (handle_bin_push memory_store receiver true body).0.store.records ≡ some w
        → (lookup k receiver.store.records ≡ some w) ⊎ (lookup k sender.store.records ≡ some w))
bin_round_example =
    bin_round sender receiver vector first.collection one-IsValid (unfold lookup in (refl, tt))
      (omega arith) (omega arith) one-Sendable

check_page_first_example :
    ((check_page
        (record { vector = vector; limit = pos 7; cursor = [] })
        (first ∷ second ∷ [])).missing_changes
      ≡ take (limit_of (pos 7)) (filter (is_missing vector) (first ∷ second ∷ [])))
    × (length (filter (is_missing vector) (first ∷ second ∷ [])) < limit_of (pos 7)
        → ((check_page
              (record { vector = vector; limit = pos 7; cursor = [] })
              (first ∷ second ∷ [])).has_more
            ≡ false)
          × ((check_page
                (record { vector = vector; limit = pos 7; cursor = [] })
                (first ∷ second ∷ [])).next_cursor
              ≡ []))
check_page_first_example = check_page_first vector (pos 7) (first ∷ second ∷ [])

handle_pull_exact_example :
    ((changes : List Record) × ((handle_pull memory_store sender true first.collection
          (decoded zero_hlc)).1
        ≡ ok changes)
      × ((k : Bytes) (r : Record)
          → lookup k sender.store.records ≡ some r
          → r.collection ≡ collection_or_default first.collection
          → greater_than r.clock zero_hlc ≡ true
          → Has r changes)
      × ((r : Record)
          → Has r changes
          → (k : Bytes) × (lookup k sender.store.records ≡ some r)
            × (r.collection ≡ collection_or_default first.collection)
            × (greater_than r.clock zero_hlc ≡ true)))
    × ((handle_pull memory_store sender true first.collection (decoded zero_hlc)).0.store.records
        ≡ sender.store.records)
    × ((body : Body Hlc)
        → handle_pull memory_store sender false first.collection body
          ≡ (sender, err method_not_allowed))
    × (handle_pull memory_store sender true first.collection malformed ≡ (sender, err bad_request))
    × (handle_pull memory_store sender true first.collection too_large
        ≡ (sender, err request_too_large))
handle_pull_exact_example = handle_pull_exact sender first.collection zero_hlc one-IsValid
