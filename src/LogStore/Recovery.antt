-- ===== src/LogStore/Recovery.antt =====
-- What a `LogStore` of logstore/log.go keeps on disk: closed or crashed and opened again, it has the
-- records that it had.
use nell_db.Base.{
  ◌≡◌, ◌≢◌, refl, sym, ap, ◌∙◌, true, false, Option, none, some, List, [], ◌∷◌, ◌++◌, All, arith,
  append_assoc, append-nil, if◌then◌else◌, Bool-cases, inl, inr,
}
use nell_db.Base.Int.{ℤ}
use nell_db.Base.Bytes.{Bytes, eqb, eqb→eq, eqb_refl}
use nell_db.Base.Map.{lookup, lookup-insert}
use nell_db.Hlc.Clock.{HasRoom}
use nell_db.Record.{Record}
use nell_db.Resolve.Order.{beats}
use nell_db.MemoryStore
use nell_db.MemoryStore.{
  MemoryStore, new_memory_store, with_collection, collection_or_default, key, store_local,
  found_or_new,
}
use nell_db.MemoryStore.Keys.{ColonFree}
use nell_db.MemoryStore.Put.{key_of, merge, merge_cases, put_lem, put-current, merge_again}
use nell_db.MemoryStore.Invariant.{IsValid}
use nell_db.MemoryStore.Invariant.Write.{put-IsValid}
use nell_db.MemoryStore.Invariant.LocalWrite.{put_local-IsValid, delete-IsValid}
use nell_db.MemoryStore.Local.{put_local_lem, delete_lem}
use nell_db.MemoryStore.Winner.{winner_at}
use nell_db.LogStore.{Zstd, LogStore, frame, write_out, flush, append}
use nell_db.LogStore.Frames.{Writable, log_of, log_of-append}

-- The store holds in memory what its log holds, the buffered part included.
pub record Logged (z : Zstd) (ls : LogStore) (rs : List Record) : Type 0 where
  pub bytes : ls.file ++ ls.buffer ≡ log_of z rs
  pub clean : ls.failed ≡ false
  pub flushed : ls.group_commit ≡ false → ls.buffer ≡ []
  pub writable : All (Writable z) rs
  pub records : (k : Bytes) → lookup k ls.mem.records ≡ winner_at k none rs
  pub fits : (k : Bytes) (r : Record) → lookup k ls.mem.records ≡ some r → Writable z r
  pub valid : IsValid ls.mem

winner_at-append :
    (k : Bytes) (o : Option Record) (rs : List Record) (r : Record)
    → winner_at k o (rs ++ (r ∷ [])) ≡ (
        if eqb (key_of r) k
        then some (merge (winner_at k o rs) (with_collection r))
        else winner_at k o rs)
unfolding winner_at
winner_at-append k o [] r = refl
winner_at-append k o (x ∷ rs) r =
    winner_at-append k (if eqb (key_of x) k then some (merge o (with_collection x)) else o) rs r

All-append :
    (z : Zstd) (rs : List Record) (r : Record)
    → All (Writable z) rs
    → Writable z r
    → All (Writable z) (rs ++ (r ∷ []))
All-append z [] r ws w = (w, tt)
All-append z (x ∷ rs) r (v, ws) w = (v, All-append z rs r ws w)

-- What a write does to the store in memory.
pub record Wrote (s s' : MemoryStore) (r : Record) : Type 0 where
  valid : IsValid s'
  named : with_collection r ≡ r
  newest : merge (lookup (key_of r) s.records) r ≡ r
  lookup_after :
      (k : Bytes) → lookup k s'.records ≡ (if eqb (key_of r) k then some r else lookup k s.records)

append-bytes :
    (z : Zstd) (ls : LogStore) (r : Record)
    → ls.failed ≡ false
    → (append z ls r).file ++ (append z ls r).buffer ≡ (ls.file ++ ls.buffer) ++ frame z r
unfolding append write_out
append-bytes z ls r clean = elim (Bool-cases ls.group_commit) [
  | inl e ↦ rw (clean, e) (sym (append_assoc ls.file ls.buffer (frame z r)))
  | inr e ↦ rw (clean, e, append-nil) (sym (append_assoc ls.file ls.buffer (frame z r)))
]

append-flushed :
    (z : Zstd) (ls : LogStore) (r : Record)
    → ls.failed ≡ false
    → (append z ls r).group_commit ≡ false
    → (append z ls r).buffer ≡ []
unfolding append write_out
append-flushed z ls r clean h = ground arith

append-clean :
    (z : Zstd) (ls : LogStore) (r : Record) → ls.failed ≡ false → (append z ls r).failed ≡ false
unfolding append write_out
append-clean z ls r clean = ground arith

append-mem : (z : Zstd) (ls : LogStore) (r : Record) → (append z ls r).mem ≡ ls.mem
unfolding append write_out
append-mem z ls r = ground arith

log_of_one : (z : Zstd) (r : Record) → log_of z (r ∷ []) ≡ frame z r
unfolding log_of
log_of_one z r = append-nil (frame z r)

pub Logged-append :
    (z : Zstd) (ls : LogStore) (mem : MemoryStore) (rs : List Record) (r : Record)
    → Logged z ls rs
    → Wrote ls.mem mem r
    → Writable z r
    → Logged z (append z (record ls { mem = mem }) r) (rs ++ (r ∷ []))
Logged-append z ls mem rs r g w fits = record {
  bytes =
      append-bytes z ls' r g.clean
      ∙ ap (λ b. b ++ frame z r) g.bytes
      ∙ ap (λ b. log_of z rs ++ b) (sym (log_of_one z r))
      ∙ sym (log_of-append z rs (r ∷ []));
  clean = append-clean z ls' r g.clean;
  flushed = append-flushed z ls' r g.clean;
  writable = All-append z rs r g.writable fits;
  records = λ k. rw (append-mem z ls' r) (at_key k);
  fits = λ k x e. fits_after k x (rw (append-mem z ls' r) at e);
  valid = rw (append-mem z ls' r) w.valid;
}
  where
    ls' : LogStore
    ls' = record ls { mem = mem }

    stored :
        (k : Bytes) → eqb (key_of r) k ≡ true → merge (winner_at k none rs) (with_collection r) ≡ r
    stored k e =
        rw (← g.records k, ← eqb→eq (key_of r) k e)
          (ap (merge (lookup (key_of r) ls.mem.records)) w.named ∙ w.newest)

    fits_after : (k : Bytes) (x : Record) → lookup k mem.records ≡ some x → Writable z x
    fits_after k x e = elim (Bool-cases (eqb (key_of r) k)) [
      | inl t ↦
          let p : some r ≡ some x = rw (w.lookup_after k, t) at e in
          let q : r ≡ x = cc in rw (← q) fits
      | inr f ↦ g.fits k x (rw (w.lookup_after k, f) at e)
    ]

    at_key : (k : Bytes) → lookup k mem.records ≡ winner_at k none (rs ++ (r ∷ []))
    at_key k = elim (Bool-cases (eqb (key_of r) k)) [
      | inl e ↦ rw (w.lookup_after k, winner_at-append k none rs r, e) (ap some (sym (stored k e)))
      | inr e ↦ rw (w.lookup_after k, winner_at-append k none rs r, e) (g.records k)
    ]

pub with_collection-named : (r : Record) → r.collection ≢ [] → with_collection r ≡ r
unfolding with_collection
with_collection-named r h = ap (λ c. record r { collection = c }) (same r.collection h)
  where
    same : (c : Bytes) → c ≢ [] → collection_or_default c ≡ c
    same [] g = absurd (g refl)
    same (b ∷ bs) g = unfold collection_or_default in refl

-- A record that beats what is there is what is stored.
merge_newest :
    (o : Option Record) (r : Record)
    → ((old : Record) → o ≡ some old → beats r old ≡ true)
    → merge o r ≡ r
merge_newest none r h = unfold merge in refl
merge_newest (some old) r h = elim (merge_cases old r) [
  | inl (e, p) ↦ p
  | inr (e, p) ↦ cc (h old refl)
]

Wrote-of :
    (s s' : MemoryStore) (k : Bytes) (r : Record)
    → IsValid s'
    → ((j : Bytes) → lookup j s'.records ≡ (if eqb k j then some r else lookup j s.records))
    → merge (lookup k s.records) r ≡ r
    → Wrote s s' r
Wrote-of s s' k r v after m = record {
  valid = v;
  named = named;
  newest = rw (← here) m;
  lookup_after = λ j. rw (← here) (after j);
}
  where
    found : lookup k s'.records ≡ some r
    found = after k ∙ rw (eqb_refl k) refl

    named : with_collection r ≡ r
    named = with_collection-named r (v.stored k r found).named

    here : k ≡ key_of r
    here = rw named ((v.stored k r found).keyed)

pub put-Wrote :
    (s : MemoryStore) (r : Record)
    → IsValid s
    → ColonFree r.collection
    → HasRoom r.clock
    → Wrote s (MemoryStore.put s r).0 (MemoryStore.put s r).2
put-Wrote s r v plain room =
    Wrote-of s _ (key_of r) _ (put-IsValid s r plain room v) (put_lem s r).0
      (rw (put-current s r) (merge_again (lookup (key_of r) s.records) (with_collection r)))

module _ (now : ℤ) (s : MemoryStore) (v : IsValid s) (room : HasRoom s.clock) where
  pub put_local-Wrote :
      (r : Record)
      → ColonFree r.collection
      → Wrote s (MemoryStore.put_local now s r).0 (MemoryStore.put_local now s r).1
  put_local-Wrote r plain =
      let (_, _, newer, _) = put_local_lem now s r v room in
      Wrote-of s _ (key_of r) _ (put_local-IsValid now s r v room plain)
        (unfold MemoryStore.put_local store_local in λ j. lookup-insert (key_of r) j _ s.records)
        (merge_newest _ _ (λ old e. unfold beats in rw (newer _ old e) refl))

  pub delete-Wrote :
      (c id : Bytes)
      → ColonFree c
      → Wrote s (MemoryStore.delete now s c id).0 (MemoryStore.delete now s c id).1
  delete-Wrote c id plain =
      let (_, _, _, _, newer, _) = delete_lem now s c id v room in
      Wrote-of s _ (key (collection_or_default c) id) _ (delete-IsValid now s c id v room plain)
        (unfold MemoryStore.delete store_local in
          λ j. lookup-insert (key (collection_or_default c) id) j _ s.records)
        (merge_newest _ _ (λ old e. unfold beats in rw (newer _ old e) refl))

pub Logged-write_out :
    (z : Zstd) (ls : LogStore) (rs : List Record) → Logged z ls rs → Logged z (write_out ls) rs
unfolding write_out
Logged-write_out z ls rs g = record {
  bytes = append-nil (ls.file ++ ls.buffer) ∙ g.bytes;
  clean = g.clean;
  flushed = λ e. refl;
  writable = g.writable;
  records = g.records;
  fits = g.fits;
  valid = g.valid;
}

pub flush-write_out : (ls : LogStore) → ls.failed ≡ false → flush ls ≡ write_out ls
unfolding flush
flush-write_out ls clean = rw clean refl

pub Logged-flush :
    (z : Zstd) (ls : LogStore) (rs : List Record) → Logged z ls rs → Logged z (flush ls) rs
Logged-flush z ls rs g = rw (flush-write_out ls g.clean) (Logged-write_out z ls rs g)
