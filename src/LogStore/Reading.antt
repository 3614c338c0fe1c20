-- ===== src/LogStore/Reading.antt =====
-- What the workers of `replay` in logstore/log.go read from the frames of a log.
use nell_db.Base.{
  ℕ, zero, suc, ◌+◌, ◌≡◌, refl, sym, ap, ◌∙◌, List, [], ◌∷◌, ◌++◌, All, length, take, drop, arith,
  le→ltb, length-append, append_assoc, append-nil, take-append, drop-append, drop-drop,
}
use nell_db.Base.Bytes.{Bytes}
use nell_db.Base.Result.{ok}
use nell_db.Record.{Record, marshal_binary}
use nell_db.Record.Codec.{unmarshal_binary-marshal_binary}
use nell_db.LogStore.{Zstd, Frame, frame, read_frame, decode_frame, decode_raw, worker}
use nell_db.LogStore.Frames.{
  Writable, log_of, compressed, frame_at, frames_of, length-frame, drop-header,
}

-- A frame of the log is read back as its record.
read_frame-frame :
    (z : Zstd) (r : Record) (before after : Bytes)
    → Writable z r
    → read_frame z (before ++ (frame z r ++ after)) (frame_at z (length before) r) ≡ ok r
unfolding read_frame decode_frame decode_raw
read_frame-frame z r before after w =
    rw
      (
        found,
        le→ltb (length (c ++ after)) (length c) (omega (arith, length-append c after)),
        take-append c after,
        z.decodes (marshal_binary r),
        rw append-nil at (unmarshal_binary-marshal_binary r [] w.encodable),
      )
      refl
  where
    c : Bytes
    c = compressed z r

    found : drop (length before + 8) (before ++ (frame z r ++ after)) ≡ c ++ after
    found =
        rw
          (
            ← drop-drop (length before) 8 (before ++ (frame z r ++ after)),
            drop-append before (frame z r ++ after),
          )
          (drop-header z r w.fits after)

-- The frames are read as the records, one by one.
unfoldable pub Read : Zstd → Bytes → List Frame → List Record → Type 0
Read z file [] [] = Unit {0}
Read z file [] (r ∷ rs) = ⊥
Read z file (fr ∷ frames) [] = ⊥
Read z file (fr ∷ frames) (r ∷ rs) = (read_frame z file fr ≡ ok r) × Read z file frames rs

pub frames_of-Read :
    (z : Zstd) (rs : List Record) (before after file : Bytes) (off : ℕ)
    → All (Writable z) rs
    → length before ≡ off
    → file ≡ before ++ (log_of z rs ++ after)
    → Read z file (frames_of z off rs) rs
unfolding Read log_of frames_of
frames_of-Read z [] before after file off w p e = tt
frames_of-Read z (r ∷ rs) before after file off (w, ws) p e =
    let split : file ≡ before ++ (frame z r ++ (log_of z rs ++ after)) =
      e ∙ ap (λ x. before ++ x) (append_assoc (frame z r) (log_of z rs) after) in
    (
      rw (split, ← p) (read_frame-frame z r before (log_of z rs ++ after) w),
      frames_of-Read z rs (before ++ frame z r) after file (off + 8 + length (compressed z r)) ws
          (omega (arith, length-append before (frame z r), length-frame z r, p))
          (split ∙ sym (append_assoc before (frame z r) (log_of z rs ++ after))),
    )

pub Read-worker :
    (z : Zstd) (file : Bytes) (frames : List Frame) (rs : List Record)
    → Read z file frames rs
    → worker z file frames ≡ ok rs
unfolding Read worker
Read-worker z file [] [] h = refl
Read-worker z file [] (r ∷ rs) h = absurd h
Read-worker z file (fr ∷ frames) [] h = absurd h
Read-worker z file (fr ∷ frames) (r ∷ rs) (e, h) = rw (e, Read-worker z file frames rs h) refl

pub Read-take :
    (z : Zstd) (file : Bytes) (n : ℕ) (frames : List Frame) (rs : List Record)
    → Read z file frames rs
    → Read z file (take n frames) (take n rs)
unfolding Read
Read-take z file zero frames rs h = tt
Read-take z file (suc n) [] [] h = tt
Read-take z file (suc n) [] (r ∷ rs) h = absurd h
Read-take z file (suc n) (fr ∷ frames) [] h = absurd h
Read-take z file (suc n) (fr ∷ frames) (r ∷ rs) (e, h) = (e, Read-take z file n frames rs h)

pub Read-drop :
    (z : Zstd) (file : Bytes) (n : ℕ) (frames : List Frame) (rs : List Record)
    → Read z file frames rs
    → Read z file (drop n frames) (drop n rs)
unfolding Read
Read-drop z file zero frames rs h = h
Read-drop z file (suc n) [] [] h = tt
Read-drop z file (suc n) [] (r ∷ rs) h = absurd h
Read-drop z file (suc n) (fr ∷ frames) [] h = absurd h
Read-drop z file (suc n) (fr ∷ frames) (r ∷ rs) (e, h) = Read-drop z file n frames rs h
