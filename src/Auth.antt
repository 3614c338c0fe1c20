-- ===== src/Auth.antt =====
-- Request authentication: sign.go, and the middleware of server/auth.go. The keyed hash with its
-- hexadecimal form, the printing and parsing of numbers, and the time since a second are parameters.
-- A request is the two headers and the body; failing reads of the body are left out.
pub mod Body
use nell_db.Base.{
  ℕ, zero, suc, ◌+◌, ◌-◌, ◌*◌, ◌≤◌, ◌<◌, ◌≡◌, ◌↔◌, sym, ◌∙◌, Bool, true, false, ◌||◌, not, Option,
  none, some, List, [], ◌∷◌, ◌++◌, ltb, leb, min, length, take, drop, arith, if◌then◌else◌, ltb→lt,
  lt→ltb, le→ltb, drop-drop, take-append-drop, length-drop, append-nil,
}
use nell_db.Base.Int.{ℤ, pos, negsuc, ltb_ℤ}
use nell_db.Base.Bytes.{Bytes, eqb}
use nell_db.Base.Result.{Result, ok, err}

pub record Library : Type 0 where
  -- The hash under a secret, in hexadecimal.
  pub mac : Bytes → Bytes → Bytes
  pub print : ℤ → Bytes
  pub parse : Bytes → Option ℤ
  -- The nanoseconds since a Unix second.
  pub since : ℤ → ℤ

pub data AuthError : Type 0 where
  missing_headers invalid_timestamp out_of_range invalid_signature : AuthError

-- 30 s in nanoseconds.
abbrev pub max_skew : ℕ
max_skew = 30000000000

unfoldable pub is_empty : Bytes → Bool
is_empty [] = true
is_empty (b ∷ bs) = false

unfoldable pub sign_body : Library → Bytes → ℤ → Bytes → Bytes
sign_body lib secret timestamp body = lib.mac secret (lib.print timestamp ++ (10 ∷ body))

unfoldable pub in_range : ℤ → Bool
in_range skew = not (ltb_ℤ skew (negsuc (max_skew - 1)) || ltb_ℤ (pos max_skew) skew)

-- The middleware from the parsed timestamp on.
unfoldable pub check_signature : Library → Bytes → Bytes → Bytes → Option ℤ → Result AuthError Bytes
check_signature lib secret signature body none = err invalid_timestamp
check_signature lib secret signature body (some ts) =
    if not (in_range (lib.since ts))
    then err out_of_range
    else if not (eqb (sign_body lib secret ts body) signature)
    then err invalid_signature
    else ok body

-- `HMACAuth`: the body that the next handler gets.
unfoldable pub hmac_auth : Library → Bytes → Bytes → Bytes → Bytes → Result AuthError Bytes
hmac_auth lib secret timestamp signature body =
    if is_empty secret
    then ok body
    else if is_empty timestamp || is_empty signature
    then err missing_headers
    else check_signature lib secret signature body (lib.parse timestamp)

-- `bodyReader`, and its `Read` into a buffer of `room` bytes: the bytes read, or none at the end.
pub record BodyReader : Type 0 where
  pub bytes : Bytes
  pub position : ℕ

unfoldable pub read : BodyReader → ℕ → BodyReader × Option Bytes
read r room =
    let chunk = take room (drop r.position r.bytes) in
    if not (ltb r.position (length r.bytes))
    then (r, none)
    else (record r { position = r.position + length chunk }, some chunk)

-- At most 30 s before or after the present, in nanoseconds.
unfoldable pub Within30s : ℤ → Type 0
Within30s (pos n) = n ≤ 30000000000
Within30s (negsuc n) = n < 30000000000

pub in_range-Within30s : (skew : ℤ) → (in_range skew ≡ true) ↔ Within30s skew
unfolding in_range Within30s ltb_ℤ
in_range-Within30s (pos n) = ground arith
in_range-Within30s (negsuc n) = ground arith
