-- ===== src/Lib.antt =====
-- NellDB: a replicated document store. Nodes stamp their writes with hybrid logical clocks and
-- exchange records, and every node resolves conflicts by itself.
--
-- Parts, and where they are modelled:
-- * types.go, the clock `HLC`: Hlc. The physical time, which `NewHLC` and `Tick` read from the
--   system, is an argument. A clock's int64 and int32 are integers; the counter's increment wraps
--   as int32 does. Hlc/Order has the order, Hlc/Clock what `Tick` and `Update` give, Hlc/Codec the
--   bytes.
-- * types.go, `Record` and its binary form: Record. A string is its bytes, a float32 its bit
--   pattern. Record/Codec has the round trip, Record/Bounds what a successful decoding has read,
--   Record/Truncation short buffers, longer ones and fields that do not fit.
-- * store.go, `KnowledgeVector`: Knowledge, with its laws and the binary form.
-- * store.go, `ResolveConflict`: Resolve, with the order that it decides by in Resolve/Order.
-- * store.go, `MemoryStore`: MemoryStore, its state and methods. MemoryStore/Keys is about the
--   keys of its map, MemoryStore/Index about the collection index, MemoryStore/Invariant about
--   what holds between the methods, MemoryStore/Put, MemoryStore/Local and MemoryStore/Listing
--   about the methods, MemoryStore/Changes about `GetChangesSince`, MemoryStore/Convergence about
--   replication, and MemoryStore/Collision about documents that share a key.
-- * logstore/log.go, `LogStore`: LogStore, the records in memory behind a log of frames. The
--   fields and the methods' code that it shares with `MemoryStore` are held as a `MemoryStore`.
--   The compression library is a parameter. LogStore/Frames and LogStore/Reading are about the
--   log's bytes, LogStore/Replay about opening a log, LogStore/Recovery and LogStore/Compaction
--   about what writes and `Compact` keep, and LogStore/History about the runs of a store,
--   LogStore/Faults about what a failing `Compact` leaves.
-- * server/main.go, the sync endpoints: Server, the handlers over an interface of the store, which
--   both stores fill. Server/Binary is about the frames on the wire, Server/Round about a check
--   that is answered and pushed, Server/Check about the JSON endpoints.
-- * server/peer_state.go, and the peer table and heartbeat of server/peer.go: Peers, where what a
--   ping answers is an argument; Peers/Heartbeat is about runs of heartbeats.
-- * sign.go and server/auth.go: Auth, with the keyed hash, the numbers' text forms and the time
--   since a second as parameters; Auth/Body is about the reader of the body.
-- * sdk/doc.go, sdk/rev.go and the helpers of sdk/docdb.go: Doc, the documents, their payloads and
--   their revisions, with JSON, SHA-1 and strconv as a record of parameters. Doc/Body is about
--   payloads, Doc/Rev about generations; Doc/Feed is the hub of sdk/changes.go, Doc/Changes the
--   goroutine of sdk/db_changes.go as a step relation.
-- * sdk/docdb.go, sdk/meta.go and sdk/vector.go, the client database: DocDb, over an interface of
--   the store whose laws are in DocDb/Engine, where the in-memory store keeps them. DocDb has Put
--   and Get, DocDb/Batch PutMany and GetMany, DocDb/Deletion Remove, Destroy and Info, DocDb/Rows
--   AllDocs and SearchSimilar, DocDb/Opening New, DocDb/Ingest the records from peers;
--   DocDb/Steps, DocDb/Puts, DocDb/Conflicts, DocDb/Removal, DocDb/Chunks and DocDb/Listing are
--   about them.
-- * sdk/replicate.go, the replicator: Replicator, with what a request is answered with as an
--   argument. Replicator/Frames, Replicator/Stored, Replicator/Seen and Replicator/Pulls are about
--   a pull, Replicator/Backoff about the live loop, Replicator/Signing about signed requests,
--   which Auth checks.
-- * The rest of server/peer.go, reconciliation: Peers/Reconcile, with what a peer answers as an
--   argument; Peers/Pages is about its loop. The rest of server/main.go: Server/Socket.
-- * server/ratelimit.go, the token buckets: RateLimiter, with floating point numbers as
--   parameters.
--
-- The stores call `ResolveConflict`, `HLC.Update` and `HLC.Tick` on every write and keep a
-- `KnowledgeVector` of the stamps written; the other parts of the system reach the stores
-- through their methods. Every method holds the store's mutex, so it is one step from a state to
-- a state.
--
-- A Go map is an association list (Base/Map); no statement depends on the order of a `range`.
-- `sort.Slice` is an insertion sort, and `sort.Search` the bisection of the Go library on fuel:
-- the length of the slice, which every step halves, plus one (Base/Sort). The scan of a log runs
-- on the length of the file plus one, and reads at least eight bytes a turn; the loop of
-- `handleBinPush` and that of the replicator's pull likewise, at least four. The pages of a
-- reconciliation run on a number that is given: one more than the records that are missing is
-- enough. The decoders' loops run as often as the count that the bytes announce and stop at the
-- first error.
--
-- Not modelled: the stores' `SearchSimilar` and the root vector.go, which compute in floating
-- point; the JSON forms and `HLC.String`; writes to the log that fail, but for the flush of
-- `Compact`, and a failed reopen at its end; the timers that flush and compact the log; the
-- server's routing, and the making of its requests to peers; the replicator's WebSocket session;
-- the configuration, TLS, the metrics, the discovery of peers, the WASM bridge and the web
-- interface.
pub mod Base
pub mod Doc
pub mod DocDb
pub mod Replicator
pub mod RateLimiter
pub mod Hlc
pub mod Record
pub mod Knowledge
pub mod Resolve
pub mod MemoryStore
pub mod LogStore
pub mod Server
pub mod Peers
pub mod Auth
mod Tests
