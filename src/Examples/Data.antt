-- ===== src/Examples/Data.antt =====
-- A room with three clients, as the examples use it.
use vibe_sync.Base.{eq_iff, str_eq, ◌≢◌, ◌≡◌, arith}
use vibe_sync.Base.{ℕ, false, none, String, ℤ, pos, List, [], ◌∷◌, ◌*◌}
use vibe_sync.Sync.Float.{milli}
use vibe_sync.Sync.State.{SyncState, playing, Payload}
use vibe_sync.Sync.Heartbeat.{ClientHeartbeat}
use vibe_sync.Sync.Drift.{DriftController}
use vibe_sync.Sync.Room.{SyncConfig, RoomSync}

abbrev pub cfg : SyncConfig ℤ
cfg = record {
  heartbeat_interval = pos 0;
  host_timeout = pos 0;
  snapshot_interval = pos 0;
  controller_kp = pos 0;
  controller_ki = pos 0;
  controller_integral_clamp_ms = pos 0;
  recover_ring_buffer_size = pos 0;
  discontinuity_threshold_ms = pos 0;
  drift_correction_enabled = false;
}

-- A client that was last seen after so many seconds.
abbrev pub seen_at : ℕ → ClientHeartbeat ℤ
seen_at s = record {
  smoothed_rtt = pos 40000;
  smoothed_offset = pos 1000;
  drift_ms = pos 5000;
  last_seen = pos (s * 1000000000);
  prev_t1 = pos 1000;
  prev_t2 = pos 1020;
  prev_t3 = pos 1021;
  has_prev = false;
}

abbrev pub controller : DriftController ℤ
controller = record {
  kp = pos 150;
  ki = pos 20;
  integral_clamp_ms = pos 200000;
  discontinuity_threshold_ms = pos 2000000;
  integral = pos 0;
}

abbrev pub movie : String → String → SyncState ℤ
movie host owner = record {
  room_id = "lounge";
  media_id = "film";
  status = playing;
  media_time_ms = pos 60000;
  wall_time_ms = pos 90000;
  playback_rate = pos 1000;
  epoch = 4;
  host_id = host;
  fencing_token = 2;
  epoch_started = pos 90000000000;
  owner_id = owner;
}

abbrev pub room : String → String → List (String × ClientHeartbeat ℤ) → RoomSync ℤ
room host owner heartbeats = record {
  cfg = cfg;
  room_id = "lounge";
  state = movie host owner;
  heartbeats = heartbeats;
  controller = controller;
  ring_buffer = [];
  subscribers = record { channel = 0; queue = [] } ∷ [];
  next_channel = 1;
  started = false;
  cancelled = false;
}

-- At the 100th second ann is gone, and bob and cleo are there.
abbrev pub clients : List (String × ClientHeartbeat ℤ)
clients = ("ann", seen_at 80) ∷ ("bob", seen_at 99) ∷ ("cleo", seen_at 98) ∷ []

abbrev pub now : ℤ
now = pos 100000000000

abbrev pub now_ms : ℤ
now_ms = pos 100000

abbrev pub no_payload : Payload ℤ
no_payload = record { seek_to_ms = none; rate = none; media_id = "" }

abbrev pub ann : String
ann = "ann"

abbrev pub bob : String
bob = "bob"

pub differ : (x y : String) → str_eq x y ≡ false → x ≢ y
differ x y h e = ground (arith, eq_iff x y)
