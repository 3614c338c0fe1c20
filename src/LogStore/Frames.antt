-- ===== src/LogStore/Frames.antt =====
-- The frames of a log, and what the first phase of `replay` in logstore/log.go finds of them.
use nell_db.Base.{
  ℕ, zero, suc, ◌+◌, ◌-◌, ◌%◌, ◌^◌, ◌<◌, ◌≤◌, ◌≡◌, refl, sym, ap, ◌∙◌, List, [], ◌∷◌, ◌++◌, All,
  ltb, length, take, drop, arith, le→ltb, lt→ltb, length-append, append_assoc, take-append_ge,
  take-drop-take, length-take_le, length-drop, if◌then◌else◌, Bool-cases, inl, inr, ltb→lt,
  drop-append,
}
use nell_db.Base.Bytes.{Bytes, put_be, get_be, length-put_be, get_be-put_be}
use nell_db.Hlc.Codec.{take-append_at, drop-append_at}
use nell_db.Record.{Record, marshal_binary}
use nell_db.Record.Codec.{Encodable}
use nell_db.LogStore.{Zstd, Frame, frame, scan_frames}

-- A record that fits its frame: it is read back from its binary form, which the encoder brings under
-- 4 GiB.
pub record Writable (z : Zstd) (r : Record) : Type 0 where
  pub encodable : Encodable r
  pub fits : length (z.encode (marshal_binary r)) < 2 ^ 32

-- The log after the records have been appended one by one.
unfoldable pub log_of : Zstd → List Record → Bytes
log_of z [] = []
log_of z (r ∷ rs) = frame z r ++ log_of z rs

-- The records whose frames lie in the first `n` bytes of the log.
unfoldable pub whole : Zstd → ℕ → List Record → List Record
whole z n [] = []
whole z n (r ∷ rs) =
    let rest = whole z (n - length (frame z r)) rs in
    if ltb n (length (frame z r)) then [] else r ∷ rest

pub log_of-append :
    (z : Zstd) (xs ys : List Record) → log_of z (xs ++ ys) ≡ log_of z xs ++ log_of z ys
unfolding log_of
log_of-append z [] ys = refl
log_of-append z (x ∷ xs) ys =
    rw (log_of-append z xs ys) (sym (append_assoc (frame z x) (log_of z xs) (log_of z ys)))

abbrev pub compressed : Zstd → Record → Bytes
compressed z r = z.encode (marshal_binary r)

-- Where the frame of a record lies, and those of several.
abbrev pub frame_at : Zstd → ℕ → Record → Frame
frame_at z off r = record {
  offset = off + 8;
  comp_len = length (compressed z r);
  uncomp_len = length (marshal_binary r) % 2 ^ 32;
}

unfoldable pub frames_of : Zstd → ℕ → List Record → List Frame
frames_of z off [] = []
frames_of z off (r ∷ rs) = frame_at z off r ∷ frames_of z (off + 8 + length (compressed z r)) rs

pub length-frame : (z : Zstd) (r : Record) → length (frame z r) ≡ 8 + length (compressed z r)
unfolding frame
length-frame z r = simp (length-append, length-put_be) (omega arith)

module _ (z : Zstd) (r : Record) (fits : length (z.encode (marshal_binary r)) < 2 ^ 32)
    (t : Bytes) where
  abbrev c : Bytes
  c = z.encode (marshal_binary r)

  u : Bytes
  u = put_be 4 (length (marshal_binary r) % 2 ^ 32)

  v : Bytes
  v = put_be 4 (length c % 2 ^ 32)

  parts : frame z r ++ t ≡ u ++ (v ++ (c ++ t))
  unfolding frame u v
  parts = rw (append_assoc, append_assoc) refl

  first_word : get_be (take 4 (frame z r ++ t)) ≡ length (marshal_binary r) % 2 ^ 32
  unfolding u
  first_word =
      rw (parts, take-append_at 4 u (v ++ (c ++ t)) (length-put_be 4 _))
        (get_be-put_be 4 (length (marshal_binary r) % 2 ^ 32) (omega arith))

  second_word : get_be (take 4 (drop 4 (frame z r ++ t))) ≡ length c
  unfolding u v
  second_word =
      rw
        (
          parts,
          drop-append_at 4 u (v ++ (c ++ t)) (length-put_be 4 _),
          take-append_at 4 v (c ++ t) (length-put_be 4 _),
        )
        (get_be-put_be 4 (length c % 2 ^ 32) (omega arith) ∙ omega (arith, fits))

  pub drop-header : drop 8 (frame z r ++ t) ≡ c ++ t
  unfolding u v
  drop-header =
      rw (parts, ← append_assoc u v (c ++ t))
        (drop-append_at 8 (u ++ v) (c ++ t) (
          length-append u v
          ∙ omega (
            arith,
            length-put_be 4 (length (marshal_binary r) % 2 ^ 32),
            length-put_be 4 (length c % 2 ^ 32),
          )))

  -- A frame at the front is found, and the scan goes on behind it.
  pub scan_frames-frame :
      (fuel off : ℕ)
      → scan_frames (suc fuel) off (frame z r ++ t)
        ≡ record {
          offset = off + 8;
          comp_len = length c;
          uncomp_len = length (marshal_binary r) % 2 ^ 32;
        }
          ∷ scan_frames fuel (off + 8 + length c) t
  unfolding scan_frames
  scan_frames-frame fuel off =
      rw
        (
          first_word,
          second_word,
          drop-header,
          drop-append c t,
          le→ltb (length (frame z r ++ t)) 8
              (omega (arith, length-append (frame z r) t, length-frame z r)),
          le→ltb (length (c ++ t)) (length c) (omega (arith, length-append c t)),
        )
        refl

  -- A frame that is cut short is not.
  pub scan_frames_torn :
      (fuel off n : ℕ)
      → n < length (frame z r)
      → scan_frames fuel off (take n (frame z r ++ t)) ≡ []
  unfolding scan_frames
  scan_frames_torn zero off n h = refl
  scan_frames_torn (suc fuel) off n h = elim (Bool-cases (ltb n 8)) [
    | inl e ↦ rw (size, e) refl
    | inr e ↦
        let long : 8 ≤ n = ground (arith, e) in
        rw
          (
            size,
            e,
            take-drop-take n 4 4 (frame z r ++ t) long,
            second_word,
            length-drop 8 (take n (frame z r ++ t)),
            size,
            lt→ltb (n - 8) (length (z.encode (marshal_binary r)))
                (omega (arith, length-frame z r, h)),
          )
          refl
  ]
    where
      size : length (take n (frame z r ++ t)) ≡ n
      size = length-take_le n (frame z r ++ t) (omega (arith, h, length-append (frame z r) t))

scan_frames_nil : (fuel off n : ℕ) → scan_frames fuel off (take n []) ≡ []
unfolding scan_frames
scan_frames_nil zero off n = refl
scan_frames_nil (suc fuel) off zero = refl
scan_frames_nil (suc fuel) off (suc n) = refl

-- The first phase finds exactly the whole frames in the first `n` bytes of a log.
pub scan_frames-whole :
    (z : Zstd) (rs : List Record) (fuel off n : ℕ)
    → All (Writable z) rs
    → length (take n (log_of z rs)) < fuel
    → scan_frames fuel off (take n (log_of z rs)) ≡ frames_of z off (whole z n rs)
unfolding log_of whole frames_of
scan_frames-whole z [] fuel off n w h = scan_frames_nil fuel off n
scan_frames-whole z (r ∷ rs) zero off n w h = absurd (omega arith)
scan_frames-whole z (r ∷ rs) (suc fuel) off n (w, ws) h =
    elim (Bool-cases (ltb n (length (frame z r)))) [
      | inl e ↦ rw e (scan_frames_torn z r w.fits (log_of z rs) (suc fuel) off n (ltb→lt n _ e))
      | inr e ↦
          let enough : length (frame z r) ≤ n = ground (arith, e) in
          let left : length (frame z r ++ take (n - length (frame z r)) (log_of z rs)) < suc fuel =
            rw (take-append_ge n (frame z r) (log_of z rs) enough) at h in
          rw (e, take-append_ge n (frame z r) (log_of z rs) enough)
            (scan_frames-frame z r w.fits (take (n - length (frame z r)) (log_of z rs)) fuel off
              ∙ ap (◌∷◌ (frame_at z off r)) (
                  scan_frames-whole z rs fuel (off + 8 + length (compressed z r))
                    (n - length (frame z r)) ws
                    (omega (
                      arith,
                      length-frame z r,
                      left,
                      length-append (frame z r) (take (n - length (frame z r)) (log_of z rs)),
                    ))))
    ]
