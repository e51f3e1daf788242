-- ===== src/Sync/Room/Tick.antt =====
-- room_sync.go: construction, the 1 Hz tick, and the start and stop of the loop.
use vibe_sync.Base.{
  true, false, ◌&&◌, not, Option, none, some, String, str_eq, ℤ, List, [], ◌∷◌, lookup, sub64,
  inc64, length, map, if◌then◌else◌,
}
use vibe_sync.Sync.Float.{Float64, zero_f}
use vibe_sync.Sync.State.{SyncState, is_playing}
use vibe_sync.Sync.Heartbeat.{ClientHeartbeat, is_alive}
use vibe_sync.Sync.Median.{median_floats}
use vibe_sync.Sync.Drift.{DriftController, ControllerResult, new_drift_controller, correct, reset}
use vibe_sync.Sync.Room.{
  SyncConfig, RoomSync, heartbeat_interval, host_timeout, alive, compute_confidence,
  broadcast_update,
}
use vibe_sync.Sync.Room.Migration.{check_host_migration}

module _ {F : Type 0} ⦃fl : Float64 F⦄ where
  abbrev positive_or : F → F → F
  positive_or v fallback = if fl.lt zero_f v then v else fallback

  make_controller : SyncConfig F → DriftController F
  make_controller cfg = record {
    kp = positive_or cfg.controller_kp new_drift_controller.kp;
    ki = positive_or cfg.controller_ki new_drift_controller.ki;
    integral_clamp_ms =
        positive_or cfg.controller_integral_clamp_ms new_drift_controller.integral_clamp_ms;
    discontinuity_threshold_ms =
        positive_or cfg.discontinuity_threshold_ms new_drift_controller.discontinuity_threshold_ms;
    integral = new_drift_controller.integral;
  }

  unfoldable pub new_room_sync : SyncConfig F → String → SyncState F → RoomSync F
  unfolding make_controller
  new_room_sync cfg room_id initial = record {
    cfg = cfg;
    room_id = room_id;
    state = initial;
    heartbeats = [];
    controller = make_controller cfg;
    ring_buffer = [];
    subscribers = [];
    next_channel = 0;
    started = false;
    cancelled = false;
  }

  unfoldable pub start : RoomSync F → RoomSync F
  start rs = record rs { started = true }

  -- `rs.cancel` is set exactly when the loop was started.
  unfoldable pub shutdown : RoomSync F → RoomSync F
  shutdown rs = if rs.started then record rs { cancelled = true } else rs

  -- The reference client of the drift correction: the owner, else the host.
  reference_id : RoomSync F → String
  reference_id rs = if str_eq rs.state.owner_id "" then rs.state.host_id else rs.state.owner_id

  reference_entry : Option (ClientHeartbeat F) → ℤ → ℤ → List (ClientHeartbeat F)
  reference_entry none now timeout = []
  reference_entry (some hb) now timeout =
      if is_alive hb now timeout && fl.lt zero_f hb.smoothed_rtt then hb ∷ [] else []

  unfoldable pub reference : ℤ → RoomSync F → List (ClientHeartbeat F)
  unfolding reference_id reference_entry
  reference now rs =
      let found = lookup (reference_id rs) rs.heartbeats in
      if str_eq (reference_id rs) "" then [] else reference_entry found now (host_timeout rs.cfg)

  unfoldable pub measure : ℤ → RoomSync F → ControllerResult F × DriftController F
  unfolding reference
  measure now rs =
      let active_count = length (alive now (host_timeout rs.cfg) rs.heartbeats) in
      let refs = reference now rs in
      let drifts = map (λ hb. hb.drift_ms) refs in
      let rtts = map (λ hb. hb.smoothed_rtt) refs in
      correct (median_floats drifts) (heartbeat_interval rs.cfg) active_count
        (compute_confidence active_count rtts) rs.controller

  unfoldable pub nudged : ControllerResult F → ℤ → RoomSync F → RoomSync F
  nudged result now_ms rs = record rs {
    state = record rs.state {
      media_time_ms = sub64 rs.state.media_time_ms (fl.to_int result.correction_ms);
      wall_time_ms = now_ms;
      epoch = inc64 rs.state.epoch;
    };
  }

  -- Moves the position against the correction, while playing.
  unfoldable pub nudge : ControllerResult F → ℤ → ℤ → RoomSync F → RoomSync F
  nudge result now_ms sent rs =
      if not (fl.eq result.correction_ms zero_f) && is_playing rs.state.status
      then broadcast_update sent (nudged result now_ms rs)
      else rs

  unfoldable pub tick_corrected :
      ControllerResult F → DriftController F → ℤ → ℤ → ℤ → RoomSync F → RoomSync F
  tick_corrected result dc now now_ms sent rs =
      if result.force_snapshot
      then broadcast_update sent (record rs { controller = reset dc })
      else check_host_migration now sent (nudge result now_ms sent (record rs { controller = dc }))

  unfoldable pub tick : ℤ → ℤ → ℤ → RoomSync F → RoomSync F
  unfolding tick_corrected
  tick now now_ms sent rs =
      let (result, dc) = measure now rs in
      if rs.cfg.drift_correction_enabled
      then tick_corrected result dc now now_ms sent rs
      else check_host_migration now sent rs
