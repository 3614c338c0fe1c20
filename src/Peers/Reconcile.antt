-- ===== src/Peers/Reconcile.antt =====
-- `reconcileOneInner` and `reconcileOne` of server/peer.go. What a peer answers a check with is the
-- argument `ask`; the request, its signature and the response's JSON are inside it. The loop over the pages
-- runs on fuel.
use nell_db.Base.{
  ℕ, zero, suc, ◌+◌, Bool, false, Option, none, some, List, [], ◌∷◌, not, ◌&&◌, ltb, length,
  if◌then◌else◌,
}
use nell_db.Base.Int.{ℤ, pos}
use nell_db.Base.Bytes.{Bytes}
use nell_db.Base.Map.{lookup, insert}
use nell_db.Base.Result.{Result, ok, err}
use nell_db.Record.{Record}
use nell_db.Server.{Store, Server, CheckRequest, CheckResponse, check_page, is_empty, record_seen}
use nell_db.Peers.{Peers, TrackedPeer, is_active, new_tracked_peer}

pub data ReconcileError : Type 0 where
  peer_not_active post_failed check_refused bad_response endless : ReconcileError

abbrev pub Ask : Type 0
Ask = CheckRequest → Result ReconcileError CheckResponse

unfoldable pub is_skipped : Option TrackedPeer → Bool
is_skipped none = false
is_skipped (some p) = not (is_active p.state)

unfoldable pub missing_of : Result ReconcileError CheckResponse → List Record
missing_of (ok resp) = resp.missing_changes
missing_of (err e) = []

-- `out.HasMore && cursor != ""`
unfoldable pub goes_on : Result ReconcileError CheckResponse → Bool
goes_on (ok resp) = resp.has_more && not (is_empty resp.next_cursor)
goes_on (err e) = false

unfoldable pub cursor_of : Result ReconcileError CheckResponse → Bytes
cursor_of (ok resp) = resp.next_cursor
cursor_of (err e) = []

module _ {S : Type 0} (ops : Store S) where
  abbrev pub Reconciled : Type 0
  Reconciled = Server S × Result ReconcileError ℕ

  unfoldable pub ingest_page : Server S → List Record → Server S
  ingest_page srv [] = srv
  ingest_page srv (r ∷ rs) =
      ingest_page (record_seen ops (record srv { store = (ops.put srv.store r).0 }) r) rs

  unfoldable pub unless_error :
      Server S → Result ReconcileError CheckResponse → Reconciled → Reconciled
  unless_error srv (err e) rest = (srv, err e)
  unless_error srv (ok resp) rest = rest

  -- A page and those that follow it, with the records that were ingested so far counted by `n`.
  unfoldable pub pages : ℕ → Ask → Server S → ℕ → Bytes → Reconciled
  pages zero ask srv n cursor = (srv, err endless)
  pages (suc fuel) ask srv n cursor =
      let res = ask (record { vector = srv.kv; limit = pos 0; cursor = cursor }) in
      let srv' = ingest_page srv (missing_of res) in
      let n' = n + length (missing_of res) in
      let rest = pages fuel ask srv' n' (cursor_of res) in
      unless_error srv res (if goes_on res then rest else (srv', ok n'))

  unfoldable pub reconcile_one_inner : ℕ → Ask → Peers → Bytes → Server S → Reconciled
  reconcile_one_inner fuel ask peers url srv =
      if is_skipped (lookup url peers) then (srv, err peer_not_active) else pages fuel ask srv 0 []

  unfoldable pub error_count : Result ReconcileError ℕ → ℕ
  error_count (ok n) = 0
  error_count (err e) = 1

  -- `reconcileOne`: the server, the count of failed pulls, and the result.
  unfoldable pub reconcile_one :
      ℕ → Ask → Peers → Bytes → Server S → ℕ → Server S × ℕ × Result ReconcileError ℕ
  reconcile_one fuel ask peers url srv pull_errors =
      let (srv', res) = reconcile_one_inner fuel ask peers url srv in
      (srv', pull_errors + error_count res, res)

-- The peers of `NewMeshManager`.
unfoldable pub new_peers : ℤ → List Bytes → Peers
new_peers now [] = []
new_peers now (url ∷ urls) = insert url (new_tracked_peer now url) (new_peers now urls)

-- `Health`: the numbers of active and of all peers, and whether the mesh replicates.
unfoldable pub count_active : Peers → ℕ
count_active [] = 0
count_active ((url, p) ∷ peers) =
    let rest = count_active peers in if is_active p.state then suc rest else rest

unfoldable pub health : Peers → ℕ × ℕ × Bool
health peers = (count_active peers, length peers, ltb 0 (length peers))

-- A peer that serves the sorted records of a collection.
abbrev pub honest : List Record → Ask
honest all req = ok (check_page req all)
