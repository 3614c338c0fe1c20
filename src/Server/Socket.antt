-- ===== src/Server/Socket.antt =====
-- The parts of server/main.go around the sync endpoints: the messages of a WebSocket, the seeding of the
-- knowledge vector at the start, and the check of the content type. What a message decodes to is an
-- argument; a broadcast is an output.
use nell_db.Base.{
  ◌≡◌, Bool, true, false, Option, none, some, List, [], ◌∷◌, Has, not, ltb, length, if◌then◌else◌,
  inl, inr,
}
use nell_db.Base.Bytes.{Bytes, eqb}
use nell_db.Base.Map.{insert}
use nell_db.Hlc.{Hlc, zero_hlc}
use nell_db.Record.{Record}
use nell_db.Knowledge
use nell_db.Knowledge.{KnowledgeVector, unseen}
use nell_db.Knowledge.Laws.{unseen-update, unseen-update_self}
use nell_db.Server.{Store, Server, push_records}

module _ {S : Type 0} (ops : Store S) where
  -- One message of the loop of `handleWebSocket`: the server, and the records that are broadcast.
  unfoldable pub socket_message : Server S → List Record → Server S × List Record
  socket_message srv changes =
      let p = push_records ops (record { server = srv; accepted = []; total = 0 }) changes in
      (p.server, if ltb 0 (length p.accepted) then changes else [])

  -- The loop, which ends at a message that does not decode: the server, and every broadcast.
  unfoldable pub socket_loop :
      Server S → List (Option (List Record)) → Server S × List (List Record)
  socket_loop srv [] = (srv, [])
  socket_loop srv (none ∷ messages) = (srv, [])
  socket_loop srv (some changes ∷ messages) =
      let (srv', sent) = socket_message srv changes in
      let (last, broadcasts) = socket_loop srv' messages in
      (last, if ltb 0 (length sent) then sent ∷ broadcasts else broadcasts)

  -- The fallback of `seedKnowledgeVector`.
  unfoldable pub update_each : KnowledgeVector → List Record → KnowledgeVector
  update_each kv [] = kv
  update_each kv (r ∷ rs) = update_each (Knowledge.update kv r.updated_by r.clock) rs

  -- `maps.Copy(s.kv, ...)`
  unfoldable pub copy_vector : KnowledgeVector → KnowledgeVector → KnowledgeVector
  copy_vector kv [] = kv
  copy_vector kv ((node_id, c) ∷ from) = copy_vector (insert node_id c kv) from

  -- `seedKnowledgeVector`, on the store's own vector if it has one.
  unfoldable pub seed_knowledge_vector : Option KnowledgeVector → Server S → Server S
  seed_knowledge_vector (some kv) srv = record srv { kv = copy_vector srv.kv kv }
  seed_knowledge_vector none srv =
      let (s, all) = ops.get_changes_since srv.store zero_hlc in
      record srv { store = s; kv = update_each srv.kv all }

  update_each-stays :
      (kv : KnowledgeVector) (rs : List Record) (j : Bytes) (c : Hlc)
      → unseen kv j c ≡ false
      → unseen (update_each kv rs) j c ≡ false
  unfolding update_each
  update_each-stays kv [] j c h = h
  update_each-stays kv (r ∷ rs) j c h =
      update_each-stays (Knowledge.update kv r.updated_by r.clock) rs j c
        (unseen-update kv r.updated_by j r.clock c h)

  -- A vector that was seeded by a scan has seen every record of the scan.
  pub update_each-sees :
      (kv : KnowledgeVector) (rs : List Record) (x : Record)
      → Has x rs
      → unseen (update_each kv rs) x.updated_by x.clock ≡ false
  unfolding update_each
  update_each-sees kv [] x h = absurd h
  update_each-sees kv (r ∷ rs) x (inl e) = rw (← e) (
      update_each-stays (Knowledge.update kv r.updated_by r.clock) rs r.updated_by r.clock
        (unseen-update_self kv r.updated_by r.clock))
  update_each-sees kv (r ∷ rs) x (inr h) =
      update_each-sees (Knowledge.update kv r.updated_by r.clock) rs x h

-- "application/json" and "application/octet-stream"
abbrev pub json_type : Bytes
json_type =
    97 ∷ 112 ∷ 112 ∷ 108 ∷ 105 ∷ 99 ∷ 97 ∷ 116 ∷ 105 ∷ 111 ∷ 110 ∷ 47 ∷ 106 ∷ 115 ∷ 111 ∷ 110 ∷ []

abbrev pub octet_stream : Bytes
octet_stream =
    97 ∷ 112 ∷ 112 ∷ 108 ∷ 105 ∷ 99 ∷ 97 ∷ 116 ∷ 105 ∷ 111 ∷ 110 ∷ 47 ∷ 111 ∷ 99 ∷ 116 ∷ 101 ∷ 116
    ∷ 45 ∷ 115 ∷ 116 ∷ 114 ∷ 101 ∷ 97 ∷ 109 ∷ []

-- `requireJSON`: whether the next handler is called.
unfoldable pub require_json : Bool → Bytes → Bool
require_json is_post content_type =
    if not is_post
    then true
    else if eqb content_type octet_stream
    then true
    else eqb content_type json_type
