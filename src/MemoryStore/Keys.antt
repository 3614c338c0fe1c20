-- ===== src/MemoryStore/Keys.antt =====
-- The keys of the records map, `collection + ":" + id`.
use nell_db.Base.{◌≡◌, ◌≢◌, ◌++◌, [], ◌∷◌, arith, append_assoc, All}
use nell_db.Base.Bytes.{Bytes}
use nell_db.MemoryStore.{key, collection_or_default}

-- No byte is a colon.
abbrev pub ColonFree : Bytes → Type 0
ColonFree = All (λ b. b ≢ 58)

-- Colon-free collections and ids are recovered from the key that they make.
pub key-injective :
    (c d i j : Bytes) → ColonFree c → ColonFree d → key c i ≡ key d j → (c ≡ d) × (i ≡ j)
unfolding key
key-injective [] [] i j p q e = ground arith
key-injective [] (y ∷ d) i j p q e = absurd (q.0 (ground arith))
key-injective (x ∷ c) [] i j p q e = absurd (p.0 (ground arith))
key-injective (x ∷ c) (y ∷ d) i j p q e =
    let (f, g) = key-injective c d i j p.1 q.1 (ground arith) in ground (arith, f, g)

-- A colon in a collection name makes two documents share a key: document `d:i` of collection `c` and
-- document `i` of collection `c:d`, for any names.
pub key_collision : (c d i : Bytes) → key c (d ++ (58 ∷ i)) ≡ key (c ++ (58 ∷ d)) i
unfolding key
key_collision c d i = rw append_assoc

pub collection_or_default-ColonFree :
    (c : Bytes) → ColonFree c → ColonFree (collection_or_default c)
unfolding collection_or_default
collection_or_default-ColonFree [] h = omega arith
collection_or_default-ColonFree (x ∷ c) h = h
