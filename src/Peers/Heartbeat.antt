-- ===== src/Peers/Heartbeat.antt =====
-- What a run of heartbeats of server/peer.go makes of a peer.
use nell_db.Base.{
  ℕ, ◌+◌, ◌≡◌, refl, sym, ap, subst, ◌∙◌, Bool, true, false, some, List, [], ◌∷◌, ltb, arith,
  if◌then◌else◌, inl, inr, Bool-cases,
}
use nell_db.Base.Int.{ℤ}
use nell_db.Base.Bytes.{Bytes, eqb, eqb→eq}
use nell_db.Base.Map.{lookup}
use nell_db.Peers.{
  PeerState, active, degraded, dead, TrackedPeer, Peers, record_ping, record_miss, heartbeat,
  heartbeat_all, rounds,
}

-- What the state says of the pings that were missed in a row.
unfoldable pub state_of : ℕ → PeerState
state_of missed = if ltb 2 missed then dead else if ltb 0 missed then degraded else active

-- The pings that a peer has missed in a row, starting from `missed`.
unfoldable pub misses : Bytes → ℕ → List ((Bytes → ℤ) × (Bytes → Bool)) → ℕ
misses k missed [] = missed
misses k missed ((times, answers) ∷ more) = misses k (if answers k then 0 else missed + 1) more

lookup-heartbeat_all :
    (times : Bytes → ℤ) (answers : Bytes → Bool) (k : Bytes) (p : TrackedPeer) (peers : Peers)
    → lookup k peers ≡ some p
    → (p' : TrackedPeer) × (lookup k (heartbeat_all times answers peers) ≡ some p')
      × (p' ≡ heartbeat (times k) (answers k) p)
unfolding heartbeat_all lookup
lookup-heartbeat_all times answers k p [] e = absurd (cc (e))
lookup-heartbeat_all times answers k p ((j, q) ∷ peers) e = elim (Bool-cases (eqb j k)) [
  | inl t ↦
      let same : some q ≡ some p = rw t at e in
      let qp : q ≡ p = cc in
      (heartbeat (times j) (answers j) q, rw t refl, rw (qp, eqb→eq j k t) refl)
  | inr f ↦
      let (p', g, h) = lookup-heartbeat_all times answers k p peers (rw f at e) in (p', rw f g, h)
]

-- The state agrees with the count.
pub record InStep (p : TrackedPeer) : Type 0 where
  pub agrees : p.state ≡ state_of p.missed_pings

heartbeat-InStep :
    (now : ℤ) (answered : Bool) (p : TrackedPeer)
    → InStep p
    → ((heartbeat now answered p).missed_pings ≡ (if answered then 0 else p.missed_pings + 1))
      × InStep (heartbeat now answered p)
unfolding heartbeat record_ping record_miss
heartbeat-InStep now true p h = (refl, record { agrees = unfold state_of in refl })
heartbeat-InStep now false p h = (refl, record { agrees = unfold state_of in ground arith })

-- After any number of heartbeat rounds a tracked peer is still tracked, and its count of missed pings is
-- the number of its last pings in a row that went unanswered, those before the rounds included. It
-- is active when there are none, dead when there are three or more, and degraded between.
pub rounds_lem :
    (k : Bytes) (p : TrackedPeer) (rs : List ((Bytes → ℤ) × (Bytes → Bool))) (peers : Peers)
    → lookup k peers ≡ some p
    → InStep p
    → (p' : TrackedPeer) × (lookup k (rounds rs peers) ≡ some p')
      × (p'.missed_pings ≡ misses k p.missed_pings rs)
      × (p'.state ≡ state_of (misses k p.missed_pings rs))
unfolding rounds misses
rounds_lem k p [] peers e h = (p, e, refl, h.agrees)
rounds_lem k p ((times, answers) ∷ more) peers e h =
    let (q, f, same) = lookup-heartbeat_all times answers k p peers e in
    let (count, step) = heartbeat-InStep (times k) (answers k) p h in
    let counted : q.missed_pings ≡ (if answers k then 0 else p.missed_pings + 1) =
      ap (λ (x : TrackedPeer). x.missed_pings) same ∙ count in
    let (p', g, a, b) =
      rounds_lem k q more (heartbeat_all times answers peers) f (subst InStep (sym same) step) in
    (p', g, a ∙ ap (λ n. misses k n more) counted, b ∙ ap (λ n. state_of (misses k n more)) counted)
