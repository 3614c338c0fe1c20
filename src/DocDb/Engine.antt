-- ===== src/DocDb/Engine.antt =====
-- The methods of the interface `Store` that a database calls, what they promise, and the
-- in-memory store as an implementation.
use nell_db.Base.{
  ℕ, Bool, false, arith, ap, List, [], ◌∷◌, ◌≡◌, Option, none, some, refl, if◌then◌else◌,
}
use nell_db.Base.Int.{ℤ}
use nell_db.Base.Bytes.{Bytes, eqb, eqb_refl}
use nell_db.Base.Result.{Result, ok, err}
use nell_db.Record.{Record}
use nell_db.MemoryStore
use nell_db.MemoryStore.{MemoryStore, collection_or_default, key, with_collection}
use nell_db.MemoryStore.Put.{merge, lookup-put}

-- `ErrRecordNotFound`, or an error of the engine.
pub data StoreError : Type 0 where
  not_found : StoreError
  failed : ℕ → StoreError

pub record Store (S : Type 0) : Type 0 where
  pub put : S → Record → S × Result StoreError (Bool × Record)
  pub get : S → Bytes → Bytes → Result StoreError Record
  pub list : S → Bytes → Result StoreError (List Record)
  pub list_all : S → Bytes → Result StoreError (List Record)
  pub search_similar : S → Bytes → List ℕ → ℤ → Result StoreError (List Record)

abbrev pub found : Result StoreError Record → Option Record
found (ok r) = some r
found (err e) = none

-- A `Put` that succeeds stores the winner of the conflict under the id of the record, and any `Put`
-- leaves the other ids of the collection alone.
pub record IsLawful {S : Type 0} (ops : Store S) : Type 0 where
  pub stored :
      (s : S) (r : Record) (res : Bool × Record)
      → collection_or_default r.collection ≡ r.collection
      → (ops.put s r).1 ≡ ok res
      → ops.get (ops.put s r).0 r.collection r.id
        ≡ ok (merge (found (ops.get s r.collection r.id)) r)
  pub untouched :
      (s : S) (r : Record) (j : Bytes)
      → collection_or_default r.collection ≡ r.collection
      → eqb r.id j ≡ false
      → ops.get (ops.put s r).0 r.collection j ≡ ops.get s r.collection j

or_not_found : Option Record → Result StoreError Record
or_not_found none = err not_found
or_not_found (some r) = ok r

-- The in-memory store. Its search by similarity works on floats, and is a parameter.
unfoldable pub memory_engine : (MemoryStore → Bytes → List ℕ → ℤ → List Record) → Store MemoryStore
unfolding or_not_found
memory_engine search = record {
  put = λ s r. let (s', acc, cur) = MemoryStore.put s r in (s', ok (acc, cur));
  get = λ s c id. or_not_found (MemoryStore.get s c id);
  list = λ s c. ok (MemoryStore.list s c);
  list_all = λ s c. ok (MemoryStore.list_all s c);
  search_similar = λ s c v n. ok (search s c v n);
}

found-or_not_found : (o : Option Record) → found (or_not_found o) ≡ o
unfolding or_not_found
found-or_not_found none = refl
found-or_not_found (some r) = refl

pub eqb-key : (c i j : Bytes) → eqb (key c i) (key c j) ≡ eqb i j
unfolding key eqb
eqb-key [] i j = refl
eqb-key (b ∷ c) i j = ground (arith, eqb-key c i j)

pub with_collection_named :
    (r : Record) → collection_or_default r.collection ≡ r.collection → with_collection r ≡ r
unfolding with_collection
with_collection_named r named = ap (λ c. record r { collection = c }) named

-- What `Get` of the in-memory store finds after a `Put` in the same collection.
get-put_lem :
    (s : MemoryStore) (r : Record) (j : Bytes)
    → collection_or_default r.collection ≡ r.collection
    → MemoryStore.get (MemoryStore.put s r).0 r.collection j ≡ (
        if eqb r.id j
        then some (merge (MemoryStore.get s r.collection r.id) r)
        else MemoryStore.get s r.collection j)
unfolding MemoryStore.get
get-put_lem s r j named =
    let stored = lookup-put s r (key (collection_or_default r.collection) j) in
    rw (stored, with_collection_named r named, named, eqb-key r.collection r.id j) refl

-- The in-memory store keeps the promises that a database relies on.
pub memory_engine-IsLawful :
    (search : MemoryStore → Bytes → List ℕ → ℤ → List Record) → IsLawful (memory_engine search)
unfolding memory_engine
memory_engine-IsLawful search = record {
  stored = λ s r res named done.
      rw
        (
          get-put_lem s r r.id named,
          eqb_refl r.id,
          found-or_not_found (MemoryStore.get s r.collection r.id),
        )
        (unfold or_not_found in refl);
  untouched = λ s r j named differ. ap or_not_found (rw (get-put_lem s r j named, differ) refl);
}
