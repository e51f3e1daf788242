-- ===== src/Sync/State.antt =====
-- apps/sync-service/internal/domain/state.go: the playback state of a room.
pub mod Commands
use vibe_sync.Base.{
  ℕ, ◌+◌, ◌%◌, Bool, true, false, ◌&&◌, Option, none, some, String, ℤ, pos, ltb_ℤ, add64, sub64,
  inc64, if◌then◌else◌,
}
use vibe_sync.Sync.Float.{Float64, zero_f, one_f}

pub data PlaybackStatus : Type 0 where
  unspecified paused playing buffering ended : PlaybackStatus

abbrev pub is_playing : PlaybackStatus → Bool
is_playing playing = true
is_playing _ = false

-- Times are nanoseconds, milliseconds where the name says so.
pub record SyncState (F : Type 0) : Type 0 where
  pub room_id : String
  pub media_id : String
  pub status : PlaybackStatus
  pub media_time_ms : ℤ  -- int64
  pub wall_time_ms : ℤ  -- int64
  pub playback_rate : F
  pub epoch : ℕ  -- uint64
  pub host_id : String
  pub fencing_token : ℕ  -- uint64
  pub epoch_started : ℤ
  pub owner_id : String

-- `unknown` is any other value that the wire can carry.
pub data CommandKind : Type 0 where
  cmd_unspecified cmd_play cmd_pause cmd_seek cmd_set_rate cmd_load_media : CommandKind
  cmd_next cmd_previous : CommandKind
  unknown : ℕ → CommandKind

-- What a command carries besides its kind.
pub record Payload (F : Type 0) : Type 0 where
  pub seek_to_ms : Option ℤ
  pub rate : Option F
  pub media_id : String

module _ {F : Type 0} ⦃fl : Float64 F⦄ where
  unfoldable pub advance_media_time : SyncState F → ℤ → ℤ
  advance_media_time s now_ms =
      let elapsed = sub64 now_ms s.wall_time_ms in
      let forward = if ltb_ℤ elapsed (pos 0) then pos 0 else elapsed in
      if fl.eq s.playback_rate zero_f
      then s.media_time_ms
      else add64 s.media_time_ms (fl.to_int (fl.mul (fl.of_int forward) s.playback_rate))

  seek_to : Option ℤ → SyncState F → SyncState F
  seek_to none s = s
  seek_to (some t) s = record s { media_time_ms = t }

  abbrev pub rate_in_range : F → Bool
  rate_in_range r = fl.le (fl.ratio 25 100) r && fl.le r (fl.ratio 4 1)

  set_rate : Option F → SyncState F → SyncState F
  set_rate none s = s
  set_rate (some r) s =
      let t = record s { playback_rate = r } in
      if rate_in_range r then (if fl.lt zero_f r then record t { status = playing } else t) else s

  resume : SyncState F → SyncState F
  resume s =
      let t = record s { status = playing } in
      if fl.eq s.playback_rate zero_f then record t { playback_rate = one_f } else t

  load_media : String → SyncState F → SyncState F
  load_media m s = record s {
    media_id = m;
    media_time_ms = pos 0;
    status = paused;
    playback_rate = zero_f;
  }

  -- The `switch` of `ApplyCommand`.
  unfoldable pub dispatch : CommandKind → Payload F → SyncState F → SyncState F
  unfolding seek_to set_rate resume load_media
  dispatch cmd_play p s = resume s
  dispatch cmd_pause p s = record s { status = paused; playback_rate = zero_f }
  dispatch cmd_seek p s = seek_to p.seek_to_ms s
  dispatch cmd_set_rate p s = set_rate p.rate s
  dispatch cmd_load_media p s = load_media p.media_id s
  dispatch _ p s = s

  -- The position and the wall clock are sampled before the `switch`.
  unfoldable pub sample : SyncState F → ℤ → SyncState F
  sample s now_ms =
      let t = record s { wall_time_ms = now_ms } in
      if is_playing s.status then record t { media_time_ms = advance_media_time s now_ms } else t

  unfoldable pub apply_command : CommandKind → Payload F → ℤ → ℤ → SyncState F → SyncState F
  unfolding dispatch sample
  apply_command kind p now_ms now s =
      let t = dispatch kind p (sample s now_ms) in
      record t { epoch = inc64 t.epoch; epoch_started = now }
