-- ===== src/Peers.antt =====
-- The peers of the mesh: server/peer_state.go, and the tables and the heartbeat of server/peer.go. The
-- physical time is an argument, and so is what a ping answers.
pub mod Heartbeat
pub mod Reconcile
pub mod Pages
use nell_db.Base.{
  ℕ, zero, suc, ◌+◌, ◌-◌, ◌≤◌, ◌<◌, ◌≡◌, refl, sym, ap, ◌∙◌, Bool, true, false, not, Option, none,
  some, List, [], ◌∷◌, ltb, arith, if◌then◌else◌, Has, inl, inr, Bool-cases,
}
use nell_db.Base.Int.{ℤ}
use nell_db.Base.Bytes.{Bytes, eqb, eqb→eq}
use nell_db.Base.Map.{Map, lookup, insert}
use nell_db.Base.Map

pub data PeerState : Type 0 where
  active degraded dead : PeerState

pub record TrackedPeer : Type 0 where
  pub url : Bytes
  pub state : PeerState
  pub last_seen : ℤ
  pub missed_pings : ℕ

abbrev pub max_missed_pings : ℕ
max_missed_pings = 3

unfoldable pub new_tracked_peer : ℤ → Bytes → TrackedPeer
new_tracked_peer now url = record { url = url; state = active; last_seen = now; missed_pings = 0 }

unfoldable pub is_active : PeerState → Bool
is_active active = true
is_active degraded = false
is_active dead = false

unfoldable pub record_ping : ℤ → TrackedPeer → TrackedPeer
record_ping now p = record p { last_seen = now; missed_pings = 0; state = active }

unfoldable pub record_miss : ℕ → TrackedPeer → TrackedPeer
record_miss max_missed p =
    let missed = p.missed_pings + 1 in
    record p {
      missed_pings = missed;
      state =
          if not (ltb missed max_missed)
          then dead
          else if not (ltb missed 1)
          then degraded
          else p.state;
    }

-- `MeshManager.peers`
abbrev pub Peers : Type 0
Peers = Map TrackedPeer

unfoldable pub add_peer : ℤ → Bytes → Peers → Peers
add_peer now url peers = elim (lookup url peers) [
  | some p ↦ peers
  | none ↦ insert url (new_tracked_peer now url) peers
]

unfoldable pub remove_peer : Bytes → Peers → Peers
remove_peer url peers = Map.delete url peers

-- `Peers`: the URLs of the active peers.
unfoldable pub active_urls : Peers → List Bytes
active_urls [] = []
active_urls ((k, p) ∷ peers) =
    let rest = active_urls peers in if is_active p.state then p.url ∷ rest else rest

-- One turn of `heartbeatAll`, on the answer of the ping.
unfoldable pub heartbeat : ℤ → Bool → TrackedPeer → TrackedPeer
heartbeat now answered p = if answered then record_ping now p else record_miss max_missed_pings p

-- `heartbeatAll`: every peer is pinged once, at the time that `times` gives, and answers as `answers`
-- says.
unfoldable pub heartbeat_all : (Bytes → ℤ) → (Bytes → Bool) → Peers → Peers
heartbeat_all times answers [] = []
heartbeat_all times answers ((k, p) ∷ peers) =
    (k, heartbeat (times k) (answers k) p) ∷ heartbeat_all times answers peers

-- Rounds of `heartbeatAll`, the last one last.
unfoldable pub rounds : List ((Bytes → ℤ) × (Bytes → Bool)) → Peers → Peers
rounds [] peers = peers
rounds ((times, answers) ∷ more) peers = rounds more (heartbeat_all times answers peers)
