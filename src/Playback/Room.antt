-- ===== src/Playback/Room.antt =====
-- apps/playback-service/internal/domain/playback.go: PlaybackRoom, and what events and commands
-- make of it.
use vibe_sync.Base.{
  ℕ, Bool, true, false, ◌&&◌, String, ℤ, pos, wrap16, ltb, leb, ◌==◌, if◌then◌else◌,
}
use vibe_sync.Sync.Float.{Float64, zero_f}

pub record PlaybackRoom (F : Type 0) : Type 0 where
  pub room_id : String
  pub media_id : String
  pub status : ℤ  -- int16
  pub media_time_ms : ℤ
  pub wall_time_ms : ℤ
  pub playback_rate : F
  pub epoch : ℕ  -- uint64
  pub host_id : String
  pub fencing_token : ℕ  -- uint64
  pub updated_at : ℤ

pub record SyncUpdatedV1 (F : Type 0) : Type 0 where
  pub room_id : String
  pub epoch : ℕ
  pub status : ℤ
  pub media_time : ℤ
  pub wall_time : ℤ
  pub rate : F
  pub host_id : String
  pub drift_ms : ℤ
  pub peers : ℕ

-- The arguments of `ApplySyncCommand`, without the time.
pub record SyncCommand (F : Type 0) : Type 0 where
  pub media_id : String
  pub status : ℤ
  pub media_time_ms : ℤ
  pub wall_time_ms : ℤ
  pub playback_rate : F
  pub epoch : ℕ
  pub host_id : String
  pub fencing_token : ℕ

module _ {F : Type 0} where
  unfoldable pub apply_from_event : SyncUpdatedV1 F → ℤ → PlaybackRoom F → Bool × PlaybackRoom F
  apply_from_event e now r = (
    ltb r.epoch e.epoch,
    record r {
      epoch = e.epoch;
      status = wrap16 e.status;
      media_time_ms = e.media_time;
      wall_time_ms = e.wall_time;
      playback_rate = e.rate;
      host_id = e.host_id;
      updated_at = now;
    },
  )

  unfoldable pub apply_sync_command : SyncCommand F → ℤ → PlaybackRoom F → Bool × PlaybackRoom F
  apply_sync_command c now r =
      let applied : PlaybackRoom F = record r {
        media_id = c.media_id;
        status = c.status;
        media_time_ms = c.media_time_ms;
        wall_time_ms = c.wall_time_ms;
        playback_rate = c.playback_rate;
        epoch = c.epoch;
        host_id = c.host_id;
        fencing_token = c.fencing_token;
        updated_at = now;
      } in
      if ltb c.fencing_token r.fencing_token
      then (false, r)
      else if leb c.epoch r.epoch && c.fencing_token == r.fencing_token
      then (false, r)
      else (true, applied)

  unfoldable pub load_media : String → ℤ → PlaybackRoom F → PlaybackRoom F
  load_media media now r = record r { media_id = media; updated_at = now }

-- `&domain.PlaybackRoom{RoomID: id}`
unfoldable pub blank : {F : Type 0} ⦃fl : Float64 F⦄ → String → PlaybackRoom F
blank id = record {
  room_id = id;
  media_id = "";
  status = pos 0;
  media_time_ms = pos 0;
  wall_time_ms = pos 0;
  playback_rate = zero_f;
  epoch = 0;
  host_id = "";
  fencing_token = 0;
  updated_at = pos 0;
}
