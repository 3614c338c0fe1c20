-- ===== src/Tests/Databases.antt =====
-- Databases of documents over the in-memory store.
use nell_db.Base.{
  ℕ, zero, suc, ◌+◌, ◌<◌, ◌≤◌, ◌^◌, ◌≡◌, ◌≢◌, ◌↔◌, refl, ap, sym, ◌∷◌, [], ◌++◌, Bool, true, false,
  Option, none, some, List, length, arith, All, Has, inl, inr, ◌==◌, if◌then◌else◌,
}
use nell_db.Base.Int.{ℤ, pos, negsuc, ltb_ℤ}
use nell_db.Base.Bytes.{Bytes, eqb}
use nell_db.Base.Map.{lookup, Distinct}
use nell_db.Base.Result.{ok, err}
use nell_db.Hlc.{Hlc, zero_hlc, greater_than, update, new_hlc}
use nell_db.Hlc.Clock.{HasRoom}
use nell_db.Record.{Record}
use nell_db.MemoryStore.{MemoryStore, new_memory_store, collection_or_default}
use nell_db.MemoryStore
use nell_db.Doc.{
  Doc, Value, text, Library, field_id, field_rev, is_empty, text_field, as_text, or_empty,
  is_deleted, gen_rev, parse_gen,
}
use nell_db.Doc.Rev.{PrintsNumbers, chain, parse_gen-chain}
use nell_db.Doc.Body.{IsFaithful}
use nell_db.Doc.Feed.{new_changes_hub}
use nell_db.DocDb.Engine.{Store, memory_engine, memory_engine-IsLawful}
use nell_db.DocDb.{DocDb, DocError, conflict, doc_not_found, put, get, meta_vector_id, base_rev}
use nell_db.DocDb.Puts.{get-put}
use nell_db.DocDb.Conflicts.{put-put}
use nell_db.Tests.Samples.{node_a, first}

-- A codec that keeps the revision of a body only, and numbers in unary.
unfoldable pub marshal_rev : Option Bytes → Bytes
marshal_rev none = 0 ∷ []
marshal_rev (some rev) = 1 ∷ rev

unfoldable pub unmarshal_rev : Bytes → Option Doc
unmarshal_rev (suc zero ∷ rev) = some ((field_rev, text rev) ∷ [])
unmarshal_rev (zero ∷ rest) = some []
unmarshal_rev _ = none

unfoldable pub ones : ℤ → Bytes
ones (pos zero) = []
ones (pos (suc n)) = 49 ∷ ones (pos n)
ones (negsuc n) = []

abbrev pub docs : Library
docs = record {
  marshal = λ body. some (marshal_rev (text_field field_rev body));
  unmarshal = unmarshal_rev;
  marshal_clock = λ c. some (0 ∷ []);
  unmarshal_clock = λ b. none;
  marshal_vector = λ kv. some (0 ∷ []);
  unmarshal_vector = λ b. none;
  sha1_hex = λ b. 170 ∷ [];
  print = ones;
  parse = λ b. (pos (length b), true);
  narrow = λ f. f;
}

docs-decodes :
    (body : Doc) (o : Option Bytes)
    → text_field field_rev body ≡ o
    → (is_empty (marshal_rev o) ≡ false)
      × (body' : Doc) × (unmarshal_rev (marshal_rev o) ≡ some body')
      × Distinct body'
      × (lookup field_id body ≡ none → lookup field_id body' ≡ none)
      × ((base raw : Bytes)
          → text_field field_rev body ≡ some (gen_rev docs base raw)
          → text_field field_rev body' ≡ some (gen_rev docs base raw))
unfolding marshal_rev unmarshal_rev is_empty lookup eqb text_field as_text
docs-decodes body none e = (refl, [], refl, tt, (λ h. refl), (λ base raw h. cc))
docs-decodes body (some rev) e =
    (refl, (field_rev, text rev) ∷ [], refl, (refl, tt), (λ h. refl), (λ base raw h. cc))

pub docs-IsFaithful : IsFaithful docs
docs-IsFaithful = record {
  decodes = λ body payload e.
      let p : marshal_rev (text_field field_rev body) ≡ payload = cc in
      rw (← p) (docs-decodes body (text_field field_rev body) refl);
}

ones-digits : (n : ℕ) → All (λ b. (b == 45) ≡ false) (ones (pos n))
unfolding ones
ones-digits zero = tt
ones-digits (suc n) = (refl, ones-digits n)

length-ones : (n : ℕ) → length (ones (pos n)) ≡ n
unfolding ones
length-ones zero = refl
length-ones (suc n) = ap suc (length-ones n)

docs-PrintsNumbers : PrintsNumbers docs
docs-PrintsNumbers = record {
  digits = λ n small. ones-digits n;
  parses = λ n small. ap (λ k. (pos k, true)) (length-ones n);
}

abbrev bodies : List Bytes
bodies = (7 ∷ []) ∷ (8 ∷ []) ∷ (9 ∷ []) ∷ []

parse_gen-chain_example : parse_gen docs (chain docs docs-PrintsNumbers bodies) ≡ pos 3
parse_gen-chain_example = parse_gen-chain docs docs-PrintsNumbers bodies (omega arith)

-- The in-memory store, without a search.
abbrev pub engine : Store MemoryStore
engine = memory_engine (λ s c v n. [])

abbrev pub times : ℕ → ℤ
times n = pos (500 + n)

-- The record `first` under its id, whose clock is ahead of the times.
abbrev pub stocked : DocDb MemoryStore
stocked = record {
  store = (MemoryStore.put (new_memory_store node_a (pos 0)) first).0;
  node_id = node_a;
  collection = 120 ∷ [];
  revs = [];
  vector = [];
  last_seen_clock = zero_hlc;
  subs = new_changes_hub;
  reads = 0;
}

abbrev pub note : Doc
note = (field_id, text (49 ∷ [])) ∷ (110 ∷ [], text (104 ∷ [])) ∷ []

abbrev pub note_rev : Bytes
note_rev = 49 ∷ 45 ∷ 170 ∷ []

abbrev pub stored_note : Bytes × Doc
stored_note = (
  note_rev,
  (field_id, text (49 ∷ [])) ∷ (110 ∷ [], text (104 ∷ [])) ∷ (field_rev, text note_rev) ∷ [],
)

pub at_first : engine.get stocked.store stocked.collection (49 ∷ []) ≡ ok first
unfolding memory_engine MemoryStore.get lookup MemoryStore.put MemoryStore.put_at new_memory_store
    MemoryStore.put_new nell_db.Base.Map.insert eqb MemoryStore.key MemoryStore.with_collection
    collection_or_default
at_first = refl

pub put_note : (put engine docs times false note stocked).1 ≡ ok stored_note
unfolding put is_empty or_empty text_field lookup eqb nell_db.DocDb.put_based
    nell_db.DocDb.check_rev nell_db.DocDb.put_record nell_db.DocDb.encode_body
    nell_db.DocDb.finish_put nell_db.DocDb.put_in memory_engine gen_rev nell_db.Base.Map.insert ones
    nell_db.Doc.next_gen base_rev
put_note = refl

stocked-Room :
    (old : Record)
    → engine.get stocked.store stocked.collection (49 ∷ []) ≡ ok old
    → HasRoom old.clock × HasRoom (update (new_hlc (times stocked.reads)) old.clock)
unfolding update new_hlc nell_db.Hlc.inc_int32 ltb_ℤ nell_db.Base.Int.eqb_ℤ
stocked-Room old e =
    let same : first ≡ old = cc at_first in
    rw (← same)
      (record { room = λ q. absurd (ground arith) }, record { room = λ q. absurd (ground arith) })

get-put_example :
    (got : Doc) × (get engine docs times false
        (49 ∷ [])
        (put engine docs times false note stocked).0
      ≡ ok got)
    × (text_field field_id got ≡ some (49 ∷ []))
    × (text_field field_rev got ≡ some note_rev)
    × (lookup (49 ∷ []) (put engine docs times false note stocked).0.revs ≡ some note_rev)
unfolding collection_or_default eqb or_empty text_field lookup is_deleted nell_db.Doc.as_flag
get-put_example =
    get-put engine docs times (memory_engine-IsLawful (λ s c v n. [])) docs-IsFaithful note stocked
      stored_note refl refl stocked-Room refl put_note

-- The same note, with a revision that nobody returned.
abbrev stale_note : Doc
stale_note = (field_id, text (49 ∷ [])) ∷ (field_rev, text (50 ∷ 45 ∷ [])) ∷ []

put-put_example :
    ((put engine docs times false stale_note (put engine docs times false note stocked).0).1
      ≡ err conflict)
    ↔ ((is_empty (50 ∷ 45 ∷ []) ≡ false) × (eqb (50 ∷ 45 ∷ []) note_rev ≡ false))
unfolding text_field lookup eqb is_empty or_empty
put-put_example = put-put engine docs times note stale_note stocked stored_note put_note refl refl
