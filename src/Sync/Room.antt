-- ===== src/Sync/Room.antt =====
-- apps/sync-service/internal/app/room_sync.go: the state of RoomSync, its frames, its ring buffer
-- and its subscribers. Each reading of the clock is an argument of the call that makes it. A Go
-- map is an association list; where the code iterates over it, the order is that of the list.
pub mod Migration
pub mod Requests
pub mod Tick
pub mod Steps
pub mod Cases
pub mod Bounds
pub mod Versions
pub mod Fencing
pub mod Succession
pub mod Recovery
use vibe_sync.Base.{
  ℕ, ◌+◌, ◌-◌, ◌*◌, ◌/◌, ◌%◌, Bool, true, false, ◌&&◌, Option, none, some, String, str_eq, ℤ, pos,
  negsuc, pos_part, ltb_ℤ, ltb, leb, ◌==◌, List, [], ◌∷◌, ◌++◌, map, length, drop, if◌then◌else◌,
}
use vibe_sync.Sync.Float.{Float64, zero_f}
use vibe_sync.Sync.State.{PlaybackStatus, SyncState}
use vibe_sync.Sync.Heartbeat.{ClientHeartbeat, is_alive}
use vibe_sync.Sync.Median.{median_floats, max_abs_floats}
use vibe_sync.Sync.Drift.{DriftController}

-- Durations are nanoseconds.
pub record SyncConfig (F : Type 0) : Type 0 where
  pub heartbeat_interval : ℤ
  pub host_timeout : ℤ
  pub snapshot_interval : ℤ
  pub controller_kp : F
  pub controller_ki : F
  pub controller_integral_clamp_ms : F
  pub recover_ring_buffer_size : ℤ
  pub discontinuity_threshold_ms : F
  pub drift_correction_enabled : Bool

abbrev pub second : ℤ
second = pos 1000000000

abbrev pub or_default : ℤ → ℤ → ℤ
or_default d fallback = if ltb_ℤ (pos 0) d then d else fallback

abbrev pub heartbeat_interval : {F : Type 0} → SyncConfig F → ℤ
heartbeat_interval cfg = or_default cfg.heartbeat_interval second

abbrev pub host_timeout : {F : Type 0} → SyncConfig F → ℤ
host_timeout cfg = or_default cfg.host_timeout (pos 5000000000)

unfoldable pub ring_size : {F : Type 0} → SyncConfig F → ℕ
ring_size cfg = pos_part (or_default cfg.recover_ring_buffer_size (pos 32))

-- The wire form of the state; an empty media or host id is absent.
pub record StateProto (F : Type 0) : Type 0 where
  pub room_id : String
  pub media_id : Option String
  pub status : PlaybackStatus
  pub media_time_ms : ℤ
  pub wall_time_ms : ℤ
  pub playback_rate : F
  pub epoch : ℕ
  pub host_id : Option String
  pub fencing_token : ℕ
  pub epoch_started_at : ℤ

pub record SyncSnapshot (F : Type 0) : Type 0 where
  pub state : StateProto F
  pub drift_estimate_ms : ℤ
  pub confidence : ℕ
  pub active_peers : ℕ
  pub median_rtt_ms : ℤ
  pub captured_at : ℤ

pub record HostMigration : Type 0 where
  pub room_id : String
  pub previous_host_id : String
  pub new_host_id : String
  pub new_epoch : ℕ
  pub new_fencing_token : ℕ
  pub at : ℤ

-- The payload of a SubscribeResponse; the first field of each is `sent_at`.
pub data Frame (F : Type 0) : Type 0 where
  update : ℤ → StateProto F → Frame F
  snapshot : ℤ → SyncSnapshot F → Frame F
  host_migration : ℤ → HostMigration → Frame F

pub record FrameEntry (F : Type 0) : Type 0 where
  pub epoch : ℕ
  pub frame : Frame F

-- A subscriber's channel: an identity, and the frames that wait in its buffer, oldest first.
pub record Subscriber (F : Type 0) : Type 0 where
  pub channel : ℕ
  pub queue : List (Frame F)

-- `next_channel` is the identity that the next `make(chan ...)` gets.
pub record RoomSync (F : Type 0) : Type 0 where
  pub cfg : SyncConfig F
  pub room_id : String
  pub state : SyncState F
  pub heartbeats : List (String × ClientHeartbeat F)
  pub controller : DriftController F
  pub ring_buffer : List (FrameEntry F)
  pub subscribers : List (Subscriber F)
  pub next_channel : ℕ
  pub started : Bool
  pub cancelled : Bool

abbrev pub present : String → Option String
present id = if str_eq id "" then none else some id

abbrev pub channel_capacity : ℕ
channel_capacity = 16

module _ {F : Type 0} where
  unfoldable pub state_to_proto : RoomSync F → StateProto F
  state_to_proto rs = record {
    room_id = rs.room_id;
    media_id = present rs.state.media_id;
    status = rs.state.status;
    media_time_ms = rs.state.media_time_ms;
    wall_time_ms = rs.state.wall_time_ms;
    playback_rate = rs.state.playback_rate;
    epoch = rs.state.epoch;
    host_id = present rs.state.host_id;
    fencing_token = rs.state.fencing_token;
    epoch_started_at = rs.state.epoch_started;
  }

  -- The `select` with a `default`: a full buffer drops the frame.
  abbrev pub offer : Frame F → Subscriber F → Subscriber F
  offer f s =
      if ltb (length s.queue) channel_capacity then record s { queue = s.queue ++ f ∷ [] } else s

  unfoldable pub broadcast : Frame F → RoomSync F → RoomSync F
  broadcast f rs = record rs { subscribers = map (offer f) rs.subscribers }

  unfoldable pub trim : ℕ → List (FrameEntry F) → List (FrameEntry F)
  trim size ring = if ltb size (length ring) then drop (length ring - size) ring else ring

  unfoldable pub add_to_ring : Frame F → RoomSync F → RoomSync F
  add_to_ring f rs =
      let entry : FrameEntry F = record { epoch = rs.state.epoch; frame = f } in
      record rs { ring_buffer = trim (ring_size rs.cfg) (rs.ring_buffer ++ entry ∷ []) }

  unfoldable pub broadcast_update : ℤ → RoomSync F → RoomSync F
  unfolding broadcast add_to_ring
  broadcast_update now rs = let f = update now (state_to_proto rs) in broadcast f (add_to_ring f rs)

module _ {F : Type 0} ⦃fl : Float64 F⦄ where
  abbrev pub max_int32 : F
  max_int32 = fl.of_int (pos 2147483647)

  -- In the range left over `int32(v)` and `int64(v)` agree.
  unfoldable pub clamp_int32 : F → ℤ
  clamp_int32 v =
      if fl.lt max_int32 v
      then pos 2147483647
      else if fl.lt v (fl.neg max_int32)
      then negsuc 2147483646
      else fl.to_int v

  sums : List F → F → F → F × F
  sums [] sum sum_sq = (sum, sum_sq)
  sums (r ∷ rs) sum sum_sq = sums rs (fl.add sum r) (fl.add sum_sq (fl.mul r r))

  high_jitter : List F → Bool
  unfolding sums
  high_jitter rtts =
      let n = fl.of_int (pos (length rtts)) in
      let (sum, sum_sq) = sums rtts zero_f zero_f in
      let mean = fl.div sum n in
      let variance = fl.sub (fl.div sum_sq n) (fl.mul mean mean) in
      ltb 1 (length rtts) && fl.lt (fl.of_int (pos 1000)) variance

  unfoldable pub compute_confidence : ℕ → List F → ℕ
  unfolding high_jitter
  compute_confidence active_peers rtts =
      let c = active_peers * 20 % 4294967296 in
      let capped = if ltb 100 c then 100 else c in
      if active_peers == 0 then 0 else if high_jitter rtts then capped / 2 else capped

  -- The loops over the heartbeats: who is alive, and the estimates of those with a round trip.
  unfoldable pub alive : ℤ → ℤ → List (String × ClientHeartbeat F) → List (ClientHeartbeat F)
  alive now timeout [] = []
  alive now timeout ((id, hb) ∷ rest) =
      let tail = alive now timeout rest in if is_alive hb now timeout then hb ∷ tail else tail

  unfoldable pub measured : List (ClientHeartbeat F) → List (ClientHeartbeat F)
  measured [] = []
  measured (hb ∷ rest) =
      let tail = measured rest in if fl.lt zero_f hb.smoothed_rtt then hb ∷ tail else tail

  unfoldable pub build_snapshot : ℤ → RoomSync F → SyncSnapshot F
  build_snapshot now rs =
      let active = alive now (host_timeout rs.cfg) rs.heartbeats in
      let drifts = map (λ hb. hb.drift_ms) (measured active) in
      let rtts = map (λ hb. hb.smoothed_rtt) (measured active) in
      record {
        state = state_to_proto rs;
        drift_estimate_ms = clamp_int32 (max_abs_floats drifts);
        confidence = compute_confidence (length active) rtts;
        active_peers = length active % 4294967296;
        median_rtt_ms = clamp_int32 (median_floats rtts);
        captured_at = now;
      }

  unfoldable pub broadcast_snapshot : ℤ → ℤ → RoomSync F → RoomSync F
  unfolding broadcast add_to_ring
  broadcast_snapshot now sent rs =
      let f = snapshot sent (build_snapshot now rs) in broadcast f (add_to_ring f rs)
