-- ===== src/Playback/Service.antt =====
-- apps/playback-service/internal/app: RoomCache, the handlers and the consumer, with the table of
-- internal/infra/postgres/playback_repo.go. The decoding of a message is an argument, `none` for a
-- payload that cannot be read, and so is the success of a transaction.
use vibe_sync.Base.{
  Bool, true, ◌||◌, Option, none, some, String, str_eq, ℤ, pos, of_bits64, bits64, wrap16, List,
  lookup, insert, if◌then◌else◌,
}
use vibe_sync.Sync.Float.{Float64}
use vibe_sync.Sync.State.{PlaybackStatus, unspecified, paused, playing, buffering, ended}
use vibe_sync.Sync.Room.{StateProto}
use vibe_sync.Playback.Room.{
  PlaybackRoom, SyncUpdatedV1, SyncCommand, apply_from_event, apply_sync_command, load_media, blank,
}

abbrev pub RoomCache : Type 0 → Type 0
RoomCache F = List (String × PlaybackRoom F)

pub data PlaybackError : Type 0 where
  missing_target missing_state : PlaybackError

pub data Result {ℓ} (A : Type ℓ) : Type ℓ where
  ok : A → Result A
  err : PlaybackError → Result A

-- A row of playback_state: epochs and tokens are stored as BIGINT.
pub record PlaybackRow (F : Type 0) : Type 0 where
  pub media_id : String
  pub status : ℤ
  pub media_time_ms : ℤ
  pub wall_time_ms : ℤ
  pub playback_rate : F
  pub epoch : ℤ
  pub host_id : String
  pub fencing_token : ℤ
  pub updated_at : ℤ

abbrev pub PlaybackTable : Type 0 → Type 0
PlaybackTable F = List (String × PlaybackRow F)

-- The numbers of the enum on the wire.
abbrev pub status_number : PlaybackStatus → ℤ
status_number unspecified = pos 0
status_number paused = pos 1
status_number playing = pos 2
status_number buffering = pos 3
status_number ended = pos 4

-- An id that is absent on the wire is read as the empty text.
abbrev pub id_value : Option String → String
id_value none = ""
id_value (some id) = id

module _ {F : Type 0} where
  unfoldable pub to_row : PlaybackRoom F → ℤ → PlaybackRow F
  to_row r now = record {
    media_id = r.media_id;
    status = r.status;
    media_time_ms = r.media_time_ms;
    wall_time_ms = r.wall_time_ms;
    playback_rate = r.playback_rate;
    epoch = of_bits64 r.epoch;
    host_id = r.host_id;
    fencing_token = of_bits64 r.fencing_token;
    updated_at = now;
  }

  unfoldable pub upsert : PlaybackRoom F → ℤ → PlaybackTable F → PlaybackTable F
  upsert r now table = insert r.room_id (to_row r now) table

  unfoldable pub from_row : String → PlaybackRow F → PlaybackRoom F
  from_row id row = record {
    room_id = id;
    media_id = row.media_id;
    status = row.status;
    media_time_ms = row.media_time_ms;
    wall_time_ms = row.wall_time_ms;
    playback_rate = row.playback_rate;
    epoch = bits64 row.epoch;
    host_id = row.host_id;
    fencing_token = bits64 row.fencing_token;
    updated_at = row.updated_at;
  }

  unfoldable pub get_row : String → PlaybackTable F → Option (PlaybackRoom F)
  get_row id table = elim (lookup id table) [ none ↦ none | some row ↦ some (from_row id row) ]

  -- What the handler reads from a state on the wire.
  unfoldable pub read_command : StateProto F → SyncCommand F
  read_command m = record {
    media_id = id_value m.media_id;
    status = status_number m.status;
    media_time_ms = m.media_time_ms;
    wall_time_ms = m.wall_time_ms;
    playback_rate = m.playback_rate;
    epoch = m.epoch;
    host_id = id_value m.host_id;
    fencing_token = m.fencing_token;
  }

module _ {F : Type 0} ⦃fl : Float64 F⦄ where
  abbrev pub or_blank : String → Option (PlaybackRoom F) → PlaybackRoom F
  or_blank id none = blank id
  or_blank id (some r) = r

  abbrev pub cached : String → RoomCache F → PlaybackRoom F
  cached id cache = or_blank id (lookup id cache)

  unfoldable pub cache_event : SyncUpdatedV1 F → ℤ → RoomCache F → RoomCache F
  cache_event e now cache =
      insert e.room_id (apply_from_event e now (cached e.room_id cache)).1 cache

  unfoldable pub cache_command : String → SyncCommand F → ℤ → RoomCache F → Bool × RoomCache F
  cache_command id c now cache =
      let (applied, r) = apply_sync_command c now (cached id cache) in (applied, insert id r cache)

  unfoldable pub cache_media : String → String → ℤ → RoomCache F → RoomCache F
  cache_media id media now cache = insert id (load_media media now (cached id cache)) cache

  -- `persistRoom`: best effort; `stored` tells whether the transaction succeeds.
  unfoldable pub persist_room : String → Bool → ℤ → RoomCache F → PlaybackTable F → PlaybackTable F
  persist_room id stored now cache table = elim (lookup id cache) [
    | none ↦ table
    | some r ↦ (if stored then upsert r now table else table)
  ]

  unfoldable pub load_media_rpc :
      String
      → String
      → Bool
      → ℤ
      → ℤ
      → RoomCache F
      → PlaybackTable F
      → Result Bool × (RoomCache F × PlaybackTable F)
  load_media_rpc id media stored now later cache table =
      let after = cache_media id media now cache in
      if str_eq id "" || str_eq media ""
      then (err missing_target, (cache, table))
      else (ok true, (after, persist_room id stored later after table))

  -- `none` is a request without a state. The status of the message is any int32.
  unfoldable pub apply_sync_command_rpc :
      String → Option (SyncCommand F) → ℤ → RoomCache F → Result Bool × RoomCache F
  apply_sync_command_rpc id none now cache = (err missing_state, cache)
  apply_sync_command_rpc id (some c) now cache =
      let (applied, after) = cache_command id (record c { status = wrap16 c.status }) now cache in
      if str_eq id "" then (err missing_state, cache) else (ok applied, after)

  -- The handler of sync.updated.v1: what it cannot use, it skips.
  unfoldable pub handle_sync_updated : Option (SyncUpdatedV1 F) → ℤ → RoomCache F → RoomCache F
  handle_sync_updated none now cache = cache
  handle_sync_updated (some e) now cache =
      if str_eq e.room_id "" then cache else cache_event e now cache
