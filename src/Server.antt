-- ===== src/Server.antt =====
-- The sync endpoints of server/main.go. A handler is a function from the server and the request to the
-- server and the response. What a request's body decodes to as JSON, or that it is malformed or too
-- large, is an argument, as encoding/json is not part of the code; the binary endpoints read and write
-- bytes, and their failing reads are left out, as are the errors of a store, the metrics and the log lines. A broadcast is an output: the records sent to the peers.
pub mod Binary
pub mod Round
pub mod Check
pub mod Socket
use nell_db.Base.{
  ℕ, zero, suc, ◌+◌, ◌-◌, ◌%◌, ◌^◌, Bool, true, false, Option, none, some, List, [], ◌∷◌, ◌++◌, not,
  ◌&&◌, ◌||◌, ltb, length, take, drop, filter, if◌then◌else◌,
}
use nell_db.Base.Int.{ℤ, pos, ltb_ℤ}
use nell_db.Base.Bytes.{Bytes, eqb, lt_bytes, put_be, get_be}
use nell_db.Base.Result.{Result, ok, err}
use nell_db.Base.Sort.{sort}
use nell_db.Hlc.{Hlc, greater_than}
use nell_db.Record.{Record, DecodeError, marshal_binary, unmarshal_binary}
use nell_db.Knowledge
use nell_db.Knowledge.{KnowledgeVector, KvError, unseen}
use nell_db.MemoryStore
use nell_db.MemoryStore.{MemoryStore, collection_or_default}
use nell_db.LogStore
use nell_db.LogStore.{LogStore, Zstd}

-- The methods of the interface `Store` that the endpoints call.
pub record Store (S : Type 0) : Type 0 where
  pub put : S → Record → S × Bool × Record
  pub list_all : S → Bytes → List Record
  pub get_changes_since : S → Hlc → S × List Record

abbrev pub memory_store : Store MemoryStore
memory_store = record {
  put = MemoryStore.put;
  list_all = MemoryStore.list_all;
  get_changes_since = MemoryStore.get_changes_since;
}

abbrev pub log_store : Zstd → Store LogStore
log_store z = record {
  put = LogStore.put z;
  list_all = LogStore.list_all;
  get_changes_since = LogStore.get_changes_since;
}

pub record Server (S : Type 0) : Type 0 where
  pub store : S
  pub kv : KnowledgeVector

pub data Status : Type 0 where
  method_not_allowed bad_request request_too_large : Status

-- What reading and decoding the body of a request gives: a body over `MaxBodyBytes` is cut by its reader.
pub data Body (A : Type 0) : Type 0 where
  decoded : A → Body A
  malformed too_large : Body A

-- `writeBodyError` of a body that is too large, or not.
unfoldable pub body_error : Bool → Status
body_error is_too_large = if is_too_large then request_too_large else bad_request

-- What a JSON handler answers, by the method, to a body that gives an error.
unfoldable pub refuse : {A : Type 0} → Bool → Bool → Result Status A
refuse is_post is_too_large =
    if not is_post then err method_not_allowed else err (body_error is_too_large)

-- `sort.Slice` by the clock.
unfoldable pub sort_by_clock : List Record → List Record
sort_by_clock rs = sort (λ a b. greater_than b.clock a.clock) rs

-- A record on the wire of the binary endpoints.
unfoldable pub wire_frame : Record → Bytes
wire_frame r = put_be 4 (length (marshal_binary r) % 2 ^ 32) ++ marshal_binary r

-- The loop of `handleBinCheck`.
unfoldable pub stream_missing : KnowledgeVector → List Record → Bytes
stream_missing kv [] = []
stream_missing kv (r ∷ rs) =
    let rest = stream_missing kv rs in
    if unseen kv r.updated_by r.clock then wire_frame r ++ rest else rest

unfoldable pub is_missing : KnowledgeVector → Record → Bool
is_missing kv r = unseen kv r.updated_by r.clock

-- `clamp`
unfoldable pub clamp : ℤ → ℤ → ℤ → ℤ
clamp v lo hi =
    let raised = if ltb_ℤ v lo then lo else v in
    if not (ltb_ℤ (pos 0) v) then lo else if ltb_ℤ hi raised then hi else raised

-- The first loop of `handleCheck`, with the records that are missing so far counted by `count`.
unfoldable pub page : KnowledgeVector → ℕ → Bytes → Bool → ℕ → List Record → List Record
page kv limit cursor past_cursor count [] = []
page kv limit cursor past_cursor count (r ∷ rs) =
    let skipped = page kv limit cursor past_cursor count rs in
    let taken = r ∷ page kv limit cursor true (suc count) rs in
    let seen = page kv limit cursor true count rs in
    if not past_cursor && not (lt_bytes cursor r.id)
    then skipped
    else if not (ltb count limit)
    then []
    else if is_missing kv r
    then taken
    else seen

-- The second loop.
unfoldable pub more_after : KnowledgeVector → Bytes → List Record → Bool
more_after kv last_id [] = false
more_after kv last_id (r ∷ rs) =
    let rest = more_after kv last_id rs in
    if not (lt_bytes last_id r.id) then rest else if is_missing kv r then true else rest

unfoldable pub last_id : List Record → Bytes
last_id [] = []
last_id (r ∷ []) = r.id
last_id (r ∷ (x ∷ rs)) = last_id (x ∷ rs)

pub record CheckRequest : Type 0 where
  pub vector : KnowledgeVector
  pub limit : ℤ
  pub cursor : Bytes

pub record CheckResponse : Type 0 where
  pub missing_changes : List Record
  pub next_cursor : Bytes
  pub has_more : Bool

unfoldable pub is_empty : Bytes → Bool
is_empty [] = true
is_empty (b ∷ bs) = false

unfoldable pub to_limit : ℤ → ℕ
to_limit (pos n) = n
to_limit _ = 0

-- `handleCheck` after the sort.
unfoldable pub check_page : CheckRequest → List Record → CheckResponse
check_page req all =
    let limit = to_limit (clamp req.limit (pos 100) (pos 10000)) in
    let missing = page req.vector limit req.cursor (is_empty req.cursor) 0 all in
    let has_more =
      not (ltb (length missing) limit) && more_after req.vector (last_id missing) all in
    record {
      missing_changes = missing;
      next_cursor = if has_more && ltb 0 (length missing) then last_id missing else [];
      has_more = has_more;
    }

module _ {S : Type 0} (ops : Store S) where
  unfoldable pub record_seen : Server S → Record → Server S
  record_seen srv r = record srv { kv = Knowledge.update srv.kv r.updated_by r.clock }

  unfoldable pub handle_bin_check : Server S → Bool → Bytes → Bytes → Result Status Bytes
  handle_bin_check srv is_post col body =
      if not is_post then err method_not_allowed else elim (Knowledge.unmarshal_binary [] body) [
        | err e ↦ err bad_request
        | ok kv ↦
            ok (
              stream_missing kv
                (sort_by_clock (ops.list_all srv.store (collection_or_default col))))
      ]

  unfoldable pub handle_check :
      Server S → Bool → Bytes → Body CheckRequest → Result Status CheckResponse
  handle_check srv is_post col malformed = refuse is_post false
  handle_check srv is_post col too_large = refuse is_post true
  handle_check srv is_post col (decoded req) =
      if not is_post
      then err method_not_allowed
      else ok (check_page req (sort_by_clock (ops.list_all srv.store (collection_or_default col))))

  unfoldable pub handle_pull :
      Server S → Bool → Bytes → Body Hlc → Server S × Result Status (List Record)
  handle_pull srv is_post col malformed = (srv, refuse is_post false)
  handle_pull srv is_post col too_large = (srv, refuse is_post true)
  handle_pull srv is_post col (decoded since) =
      let (store, changes) = ops.get_changes_since srv.store since in
      if not is_post then (srv, err method_not_allowed) else (
        record srv { store = store },
        ok (filter (λ r. eqb r.collection (collection_or_default col)) changes),
      )

  -- What the loops of the push handlers have done so far.
  pub record Pushed : Type 0 where
    pub server : Server S
    pub accepted : List Record
    pub total : ℕ

  unfoldable pub push_record : Pushed → Record → Pushed
  push_record p r =
      let (store, accepted, current) = ops.put p.server.store r in
      record {
        server = record_seen (record p.server { store = store }) r;
        accepted = if accepted then p.accepted ++ (r ∷ []) else p.accepted;
        total = p.total + 1;
      }

  unfoldable pub push_records : Pushed → List Record → Pushed
  push_records p [] = p
  push_records p (r ∷ rs) = push_records (push_record p r) rs

  unfoldable pub push_decoded : Pushed → Result DecodeError Record → Pushed
  push_decoded p (err e) = p
  push_decoded p (ok r) = push_record p r

  -- The loop of `handleBinPush`. Every turn that goes on reads the four bytes of a header.
  unfoldable pub push_frames : ℕ → Pushed → Bytes → Pushed
  push_frames zero p b = p
  push_frames (suc fuel) p b =
      let rec_len = get_be (take 4 b) in
      let rest = drop 4 b in
      let next =
        push_frames fuel (push_decoded p (unmarshal_binary (take rec_len rest)))
          (drop rec_len rest) in
      if ltb (length b) 4 then p else if ltb (length rest) rec_len then p else next

  -- `handleBinPush`: the server, the records that are broadcast and the bytes of the response.
  unfoldable pub handle_bin_push :
      Server S → Bool → Bytes → Server S × List Record × Result Status Bytes
  handle_bin_push srv is_post body =
      let p =
        push_frames (suc (length body)) (record { server = srv; accepted = []; total = 0 }) body in
      if not is_post
      then (srv, [], err method_not_allowed)
      else (p.server, p.accepted, ok (put_be 4 (length p.accepted % 2 ^ 32)))

  -- `handlePush`: the response is the numbers of accepted and of all records.
  unfoldable pub handle_push :
      Server S → Bool → Body (List Record) → Server S × List Record × Result Status (ℕ × ℕ)
  handle_push srv is_post malformed = (srv, [], refuse is_post false)
  handle_push srv is_post too_large = (srv, [], refuse is_post true)
  handle_push srv is_post (decoded changes) =
      let p = push_records (record { server = srv; accepted = []; total = 0 }) changes in
      if not is_post
      then (srv, [], err method_not_allowed)
      else (p.server, changes, ok (length p.accepted, length changes))
