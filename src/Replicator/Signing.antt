-- ===== src/Replicator/Signing.antt =====
-- The signed requests of sdk/replicate.go: `signingTransport.RoundTrip`, `SetAuthSecret`, and the URL of the
-- WebSocket session. Escaping a query is a parameter; failing reads of a body are left out.
use nell_db.Base.{[], ◌∷◌, ◌++◌, ◌&&◌, ltb, length, take, drop, if◌then◌else◌}
use nell_db.Base.Int.{ℤ}
use nell_db.Base.Bytes.{Bytes, eqb}
use nell_db.Auth.{Library, sign_body, is_empty}

-- What a request carries: the two headers, empty when they are not set, and the body.
pub record Signed : Type 0 where
  pub timestamp : Bytes
  pub signature : Bytes
  pub body : Bytes

unfoldable pub round_trip : Library → Bytes → ℤ → Bytes → Signed
round_trip lib secret ts body = record {
  timestamp = lib.print ts;
  signature = sign_body lib secret ts body;
  body = body;
}

-- A request through the transport that `SetAuthSecret` installs.
unfoldable pub request : Library → Bytes → ℤ → Bytes → Signed
request lib secret ts body =
    if is_empty secret
    then record { timestamp = []; signature = []; body = body }
    else round_trip lib secret ts body

-- "/sync/ws", "?node_id=", "http://", "https://", "ws" and "wss"
abbrev pub sync_ws : Bytes
sync_ws = 47 ∷ 115 ∷ 121 ∷ 110 ∷ 99 ∷ 47 ∷ 119 ∷ 115 ∷ []

abbrev pub node_query : Bytes
node_query = 63 ∷ 110 ∷ 111 ∷ 100 ∷ 101 ∷ 95 ∷ 105 ∷ 100 ∷ 61 ∷ []

abbrev pub http_scheme : Bytes
http_scheme = 104 ∷ 116 ∷ 116 ∷ 112 ∷ 58 ∷ 47 ∷ 47 ∷ []

abbrev pub https_scheme : Bytes
https_scheme = 104 ∷ 116 ∷ 116 ∷ 112 ∷ 115 ∷ 58 ∷ 47 ∷ 47 ∷ []

-- The URL that `runWS` dials.
unfoldable pub ws_url : (Bytes → Bytes) → Bytes → Bytes → Bytes
ws_url escape base node_id =
    let plain = base ++ sync_ws in
    let url = if is_empty node_id then plain else plain ++ (node_query ++ escape node_id) in
    if ltb 7 (length url) && eqb (take 7 url) http_scheme
    then (119 ∷ 115 ∷ []) ++ drop 4 url
    else if ltb 8 (length url) && eqb (take 8 url) https_scheme
    then (119 ∷ 115 ∷ 115 ∷ []) ++ drop 5 url
    else url
