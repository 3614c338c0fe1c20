-- ===== src/Tests/Meshes.antt =====
-- Peers and authentication.
use nell_db.Base.{
  ℕ, suc, filter, ◌≡◌, refl, ◌∷◌, ◌++◌, [], Bool, true, false, some, List, length, drop, arith,
}
use nell_db.Base.Int.{ℤ, pos}
use nell_db.Base.Bytes.{Bytes, eqb}
use nell_db.Base.Map.{lookup}
use nell_db.Base.Result.{ok}
use nell_db.Peers.{active, TrackedPeer, Peers, rounds}
use nell_db.Peers.Heartbeat.{state_of, misses, rounds_lem}
use nell_db.Auth.{Library}
use nell_db.Auth.Body.{read_all, read_all_lem}
use nell_db.Server.{memory_store, is_missing}
use nell_db.Peers.Reconcile.{honest, reconcile_one_inner}
use nell_db.Peers.Pages.{reconcile_ends}
use nell_db.Tests.Servers.{receiver}
use nell_db.Tests.Samples.{node_a, first}

abbrev peer : TrackedPeer
peer = record { url = node_a; state = active; last_seen = pos 0; missed_pings = 0 }

abbrev peers : Peers
peers = (node_a, peer) ∷ []

-- A ping that is answered and two that are not.
abbrev pings : List ((Bytes → ℤ) × (Bytes → Bool))
pings =
    ((λ k. pos 1), (λ k. true)) ∷ ((λ k. pos 2), (λ k. false)) ∷ ((λ k. pos 3), (λ k. false)) ∷ []

rounds_lem_example :
    (p' : TrackedPeer) × (lookup node_a (rounds pings peers) ≡ some p')
    × (p'.missed_pings ≡ misses node_a 0 pings)
    × (p'.state ≡ state_of (misses node_a 0 pings))
unfolding lookup eqb state_of
rounds_lem_example = rounds_lem node_a peer pings peers refl (record { agrees = refl })

abbrev secret : Bytes
secret = 1 ∷ []

abbrev stamp : Bytes
stamp = 49 ∷ []

abbrev signature : Bytes
signature = 1 ∷ 49 ∷ 10 ∷ 7 ∷ []

abbrev body : Bytes
body = 7 ∷ []

-- A hash that keeps its input, and a clock at 100 s.
abbrev library : Library
library = record {
  mac = λ s m. s ++ m;
  print = λ n. 49 ∷ [];
  parse = λ b. some (pos 100);
  since = λ n. pos 5;
}

read_all_lem_example :
    read_all 4 2 (record { bytes = 1 ∷ 2 ∷ 3 ∷ []; position = 0 }) ≡ some (drop 0 (1 ∷ 2 ∷ 3 ∷ []))
read_all_lem_example =
    read_all_lem 4 2 (record { bytes = 1 ∷ 2 ∷ 3 ∷ []; position = 0 }) (omega arith) (omega arith)

reconcile_ends_example :
    (k : ℕ) × ((reconcile_one_inner memory_store
        (suc (length (filter (is_missing receiver.kv) (first ∷ []))))
        (honest (first ∷ []))
        peers
        node_a
        receiver).1
      ≡ ok k)
unfolding nell_db.Peers.Reconcile.is_skipped lookup eqb nell_db.Peers.is_active
reconcile_ends_example = reconcile_ends memory_store (first ∷ []) peers node_a receiver refl
