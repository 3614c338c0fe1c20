-- ===== src/Doc/Body.antt =====
-- The fields of the documents that `splitDoc` and `joinDoc` make.
use nell_db.Base.{
  ℕ, ◌≡◌, ◌∙◌, refl, ap, false, Option, none, some, List, [], ◌∷◌, arith, if◌then◌else◌,
}
use nell_db.Base.Bytes.{Bytes, eqb, eqb_iff}
use nell_db.Base.Map.{lookup, insert, lookup-insert, Distinct}
use nell_db.Record.{Record}
use nell_db.Doc.{
  Doc, Value, text, floats, Library, field_id, field_rev, field_type, field_vector, is_empty,
  text_field, as_text, is_reserved, split_doc, copy, with_type, with_vector, with_rev, with_body,
  join_doc, gen_rev,
}

-- What encoding/json does with the body of a document: an encoded object has bytes, decoding it gives a
-- map, no field `_id` comes from nowhere, and a revision, which is ASCII, comes back as it was.
pub record IsFaithful (lib : Library) : Type 0 where
  pub decodes :
      (body : Doc) (payload : Bytes)
      → lib.marshal body ≡ some payload
      → (is_empty payload ≡ false)
        × (body' : Doc) × (lib.unmarshal payload ≡ some body')
        × Distinct body'
        × (lookup field_id body ≡ none → lookup field_id body' ≡ none)
        × ((base raw : Bytes)
            → text_field field_rev body ≡ some (gen_rev lib base raw)
            → text_field field_rev body' ≡ some (gen_rev lib base raw))

abbrev pub or_before : Option Value → Option Value → Option Value
or_before none o = o
or_before (some v) o = some v

pub lookup-copy :
    (k : Bytes) (out body : Doc)
    → Distinct body
    → lookup k (copy out body) ≡ or_before (lookup k body) (lookup k out)
unfolding copy lookup
lookup-copy k out [] d = refl
lookup-copy k out ((j, v) ∷ body) d =
    ground (arith, lookup-copy k (insert j v out) body d.1, lookup-insert j k v out, eqb_iff j k)

-- `splitDoc` drops the reserved fields.
pub lookup-split_doc :
    (k : Bytes) (doc : Doc)
    → lookup k (split_doc doc) ≡ (if is_reserved k then none else lookup k doc)
unfolding split_doc lookup
lookup-split_doc k [] = ground arith
lookup-split_doc k ((j, v) ∷ doc) = ground (arith, lookup-split_doc k doc, eqb_iff j k)

lookup-with_type :
    (k type : Bytes) (out : Doc)
    → eqb field_type k ≡ false
    → lookup k (with_type type out) ≡ lookup k out
unfolding with_type
lookup-with_type k type out h = ground (arith, lookup-insert field_type k (text type) out)

lookup-with_vector :
    (k : Bytes) (vec : List ℕ) (out : Doc)
    → eqb field_vector k ≡ false
    → lookup k (with_vector vec out) ≡ lookup k out
unfolding with_vector
lookup-with_vector k [] out h = refl
lookup-with_vector k (v ∷ vs) out h =
    ground (arith, lookup-insert field_vector k (floats (v ∷ vs)) out)

as_text-or_before :
    (o out : Option Value) (rev : Bytes)
    → as_text o ≡ some rev
    → as_text (or_before o out) ≡ some rev
unfolding as_text
as_text-or_before none out rev h = cc
as_text-or_before (some v) out rev h = h

with_rev-fields :
    (out body : Doc) (id rev : Bytes)
    → Distinct body
    → lookup field_id out ≡ some (text id)
    → lookup field_id body ≡ none
    → text_field field_rev body ≡ some rev
    → (text_field field_id (with_rev (copy out body)) ≡ some id)
      × (text_field field_rev (with_rev (copy out body)) ≡ some rev)
unfolding with_rev
with_rev-fields out body id rev distinct own no_id has_rev =
    let is_rev : text_field field_rev (copy out body) ≡ some rev =
      unfold text_field in
      ap as_text (lookup-copy field_rev out body distinct)
      ∙ as_text-or_before (lookup field_rev body) (lookup field_rev out) rev has_rev in
    let is_id : text_field field_id (copy out body) ≡ some id =
      unfold text_field in
      unfold as_text in rw (lookup-copy field_id out body distinct, no_id, own) refl in
    rw is_rev (is_id, is_rev)

named :
    (id type : Bytes) (vec : List ℕ)
    → lookup field_id (with_vector vec (with_type type ((field_id, text id) ∷ []))) ≡ some (text id)
named id type vec =
    lookup-with_vector field_id vec (with_type type ((field_id, text id) ∷ [])) (unfold eqb in refl)
    ∙ lookup-with_type field_id type ((field_id, text id) ∷ []) (unfold eqb in refl)
    ∙ (unfold lookup in unfold eqb in refl)

-- The document that is built from an encoded body with a generated revision and no `_id`: its `_id`
-- is the record's and its `_rev` is that revision.
pub join_doc-fields :
    (lib : Library) (faithful : IsFaithful lib) (id base raw : Bytes) (body : Doc) (rec : Record)
    → lib.marshal body ≡ some rec.payload
    → lookup field_id body ≡ none
    → text_field field_rev body ≡ some (gen_rev lib base raw)
    → (text_field field_id (join_doc lib id rec) ≡ some id)
      × (text_field field_rev (join_doc lib id rec) ≡ some (gen_rev lib base raw))
unfolding join_doc with_body
join_doc-fields lib faithful id base raw body rec enc no_id has_rev =
    let (full, body', dec, distinct, id_law, rev_law) = faithful.decodes body rec.payload enc in
    let out = with_vector rec.vector (with_type rec.type ((field_id, text id) ∷ [])) in
    rw (full, dec)
      (with_rev-fields out body' id (gen_rev lib base raw) distinct (named id rec.type rec.vector)
        (id_law no_id) (rev_law base raw has_rev))
