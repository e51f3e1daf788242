-- ===== src/Lib.antt =====
-- VibeSync: synchronized playback in rooms, as Go services that talk over RPC and Kafka. This
-- library is about the services whose own logic decides what a client sees, and about the way of
-- an event from one service to the next.
--
-- The sync service (apps/sync-service) owns the clock of each room.
--   Sync/State      internal/domain/state.go: SyncState, AdvanceMediaTime, ApplyCommand
--   Sync/Heartbeat  internal/domain/heartbeat.go: ClientHeartbeat, Update, IsAlive
--   Sync/Median     internal/domain/heartbeat.go: MedianFloats, MaxAbsFloats
--   Sync/Drift      internal/domain/controller.go: DriftController.Correct
--   Sync/Room       internal/app/room_sync.go: RoomSync, its frames, ring buffer and subscribers;
--                   Room/Migration is checkHostMigrationLocked and the choice of a successor,
--                   Room/Requests the calls behind the RPCs, Room/Tick the 1 Hz loop, and
--                   Room/Steps a room's history: each event is one critical section of the mutex
--   Sync/Service    internal/app/service.go and handlers.go: RoomManager, and the handlers
--   Sync/Persistence  internal/infra/postgres/sync_state_repo.go, the checkpoints of a room and the
--                   restart of the process
--   Sync/Float      the operations of float64 that the code uses, as an interface
--
-- The auth service (apps/auth-service) keeps the users and issues the tokens.
--   Auth/Tokens     internal/domain/refresh_token.go and status.go: NewRefreshToken, ClassifyUse
--   Auth/Store      internal/infra/postgres/refresh_repo.go and session_repo.go, and withTx of
--                   internal/app/service.go, with the rollback
--   Auth/Refresh    internal/app/refresh.go: RefreshToken and Logout
--   Auth/Login      internal/app/login.go, with issueSessionForUser of oauth.go and the users of
--                   internal/domain/user.go and internal/infra/postgres/user_repo.go
--   Auth/Names      internal/domain/user.go: NewUser, and deriveUsername of internal/app/oauth.go
--   Auth/Register   internal/app/register.go, with the event user.created.v1 in the outbox
--   Auth/OauthTables     the tables of flows, of provider accounts and of provider tokens in
--                   internal/infra/postgres
--   Auth/Oauth      internal/app/oauth.go: BeginOAuth and CompleteOAuth
--   Auth/ProviderTokens  internal/app/provider_token.go: GetProviderToken
--   Auth/KeyTable   internal/infra/postgres/signingkey_repo.go: the signing keys and their rotation
--   Auth/Keys       internal/app/keys.go and internal/infra/crypto/jwt.go: the signer that
--                   bootstrapSigner of cmd/auth-service/main.go makes, and Introspect of internal/app/introspect.go
--   Auth/Transactions    what a transaction that succeeded did, step by step
--
-- The room service (apps/room-service) keeps rooms, their members, and what members may do.
--   RoomService/Model          internal/domain/room.go and permissions.go
--   RoomService/Tables         internal/infra/postgres: the rows, their keys and the cascades
--   RoomService/Transaction    withTx of internal/app/service.go
--   RoomService/Lifecycle      internal/app/lifecycle.go: creating, joining, changing, deleting
--   RoomService/Membership     internal/app/membership.go and permissions.go
--   RoomService/Operations     every request that changes the tables, as data
-- It announces a room by room.created.v1, which Sync/Service reads, and answers the sync service's
-- question about a permission, which there is an argument. Transactions run one after another;
-- the code runs them at READ COMMITTED, where they can interleave.
--
-- The playback service (apps/playback-service) mirrors the state of each room.
--   Playback/Room         internal/domain/playback.go: ApplyFromEvent, ApplySyncCommand, LoadMedia
--   Playback/Service      internal/app: RoomCache, both RPCs and the consumer of sync.updated.v1;
--                         and the table of internal/infra/postgres/playback_repo.go
--   Playback/Deliveries   commands in any order; Playback/Authority, what the sync service tells of
--                         a room over its history; Playback/Mirror and Playback/Convergence put the
--                         two services together; Playback/Store is about late events and this
--                         service's restarts, Playback/Restarts about those of the sync service
--
-- Events leave a service through its outbox and reach another by Kafka.
--   Delivery/Outbox       infra/postgres/outbox_writer.go: Append, FetchUnpublished, MarkPublished
--   Delivery/Relay        infra/events/relay.go: the publisher and the leader-elected relay
--   Delivery/Idempotency  libs/kafka: Handler, Chain, IdempotencyMiddleware; infra/events/
--                         consumer.go: the loop of a consumer
--   Delivery/Rows, Sending, Publishing, Draining, Firsts, Once and Skipping are about them. The
--   room service's copy of the relay is modelled, and the playback service's copy of the consumer.
-- Each call of the broker, of the database and of Redis ends as a Poll or a Kv says, an answer that
-- is lost after the call took effect included.
--
-- The media service (apps/media-service) keeps the catalogue and the queue of each room.
--   Media/Queue           internal/infra/postgres/queue_repo.go: Add, List, Remove
--   Media/Service         internal/domain/media.go and internal/app/handlers.go
--   Media/Queues, Dense, Renumbering, Refinement and Requests are about the queues as lists
-- An UPDATE visits the rows of media_queue in an order that is an argument, as Postgres leaves it
-- open.
--
-- The user service (apps/user-service) keeps a copy of the users, with the fields they may edit.
--   Users/Profiles        internal/domain/user.go, internal/infra/postgres/user_repo.go, and
--                         internal/app: the requests and the consumer of user.created.v1
--   Users/Edits, Paging   are about edits and redeliveries, and about the pages of ListUsers
--
-- The provider service (apps/provider-service) looks media up at YouTube and Spotify.
--   Provider/Clients      internal/infra/youtube and internal/infra/spotify: the readings of an
--                         answer
--   Provider              internal/app/handlers.go: Resolve, with the cache of
--                         internal/infra/postgres/resolution_cache_repo.go
--
-- A mutex-protected object is a record, a method a function from the old record to the new one.
-- Each reading of a clock, each random draw and each answer of another service is an argument.
-- A Go map is an association list; a loop over one visits the list in its order, so what is said
-- of every list is said of every order. int64 and uint64 wrap around, written out in Base/Int.
--
-- float64 is a parameter: Sync/Float names the operations, and the laws that a statement relies on
-- are records of documented facts of IEEE 754, each a condition of the theorem that uses it. The
-- instance `milli`, decimal numbers with three places, shows that the laws can hold.
--
-- Not modelled: the wire format and the stream of Subscribe, the staging of events and the
-- presence of the sync service; the listing of media; cryptography and randomness; failures
-- of a database connection, outside of the relay; interleaved transactions; the listings of rooms
-- and members; random slugs; HTTP calls of sign-in providers; metrics, logs and configuration; and the search
-- of the provider service.
--
-- Loops are recursions on their list. Those of trimUnderscores are given once more as they are
-- written, on fuel (Auth/Names/Loops): one more round than the text has characters is enough.
pub mod Base
pub mod Sync
pub mod Auth
pub mod RoomService
pub mod Playback
pub mod Delivery
pub mod Media
pub mod Users
pub mod Provider
mod Examples
