-- ===== src/Sync/Persistence.antt =====
-- apps/sync-service/internal/infra/postgres/sync_state_repo.go, and the checkpoints and restarts of
-- internal/app: persistState, makePersister and the part of GetOrCreate that reads the table.
pub mod Restart
use vibe_sync.Base.{
  Bool, true, false, Option, none, some, String, ℤ, List, [], ◌∷◌, of_bits64, bits64, if◌then◌else◌,
  lookup, insert,
}
use vibe_sync.Sync.Float.{Float64}
use vibe_sync.Sync.State.{PlaybackStatus, SyncState}
use vibe_sync.Sync.Room.{RoomSync}
use vibe_sync.Sync.Service.{RoomManager, get_or_create}

-- A row, under the id of its room. The two counters are stored as int64; the SMALLINT of the
-- status holds each of its values.
pub record SyncRow (F : Type 0) : Type 0 where
  pub media_id : String
  pub status : PlaybackStatus
  pub media_time_ms : ℤ
  pub wall_time_ms : ℤ
  pub playback_rate : F
  pub epoch : ℤ
  pub host_id : String
  pub fencing_token : ℤ
  pub owner_id : String
  pub updated_at : ℤ

abbrev pub SyncTable : Type 0 → Type 0
SyncTable F = List (String × SyncRow F)

-- A process, with the table that outlives it.
pub record Process (F : Type 0) : Type 0 where
  pub manager : RoomManager F
  pub table : SyncTable F

module _ {F : Type 0} where
  unfoldable pub state_row : SyncState F → ℤ → SyncRow F
  state_row s now = record {
    media_id = s.media_id;
    status = s.status;
    media_time_ms = s.media_time_ms;
    wall_time_ms = s.wall_time_ms;
    playback_rate = s.playback_rate;
    epoch = of_bits64 s.epoch;
    host_id = s.host_id;
    fencing_token = of_bits64 s.fencing_token;
    owner_id = s.owner_id;
    updated_at = now;
  }

  unfoldable pub upsert_state : SyncState F → ℤ → SyncTable F → SyncTable F
  unfolding state_row
  upsert_state s now table = insert s.room_id (state_row s now) table

  unfoldable pub state_of : String → SyncRow F → SyncState F
  state_of id row = record {
    room_id = id;
    media_id = row.media_id;
    status = row.status;
    media_time_ms = row.media_time_ms;
    wall_time_ms = row.wall_time_ms;
    playback_rate = row.playback_rate;
    epoch = bits64 row.epoch;
    host_id = row.host_id;
    fencing_token = bits64 row.fencing_token;
    epoch_started = row.updated_at;
    owner_id = row.owner_id;
  }

  unfoldable pub get_state : String → SyncTable F → Option (SyncState F)
  unfolding state_of
  get_state id table = elim (lookup id table) [ none ↦ none | some row ↦ some (state_of id row) ]

  -- `writes` tells whether the transaction of the checkpoint succeeds.
  unfoldable pub persist_state : Bool → RoomSync F → ℤ → SyncTable F → SyncTable F
  unfolding upsert_state
  persist_state writes rs now table = if writes then upsert_state rs.state now table else table

  unfoldable pub checkpoint : String → Bool → ℤ → Process F → Process F
  unfolding persist_state
  checkpoint id writes now p = elim (lookup id p.manager.rooms) [
    | none ↦ p
    | some rs ↦ record p { table = persist_state writes rs now p.table }
  ]

  unfoldable pub restart : Process F → Process F
  restart p = record p { manager = record { cfg = p.manager.cfg; rooms = [] } }

module _ {F : Type 0} ⦃fl : Float64 F⦄ where
  -- Any error of the read counts as a row that is not there.
  unfoldable pub open_room : String → Bool → Process F → RoomSync F × Process F
  unfolding get_state
  open_room id reads p =
      let stored = if reads then get_state id p.table else none in
      let (rs, m) = get_or_create id stored p.manager in (rs, record p { manager = m })
