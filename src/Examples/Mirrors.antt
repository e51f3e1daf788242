-- ===== src/Examples/Mirrors.antt =====
-- Examples on the mirrors of a room's state.
use vibe_sync.Base.{
  str_eq, if◌then◌else◌, ◌≡◌, ◌≢◌, ◌≤◌, refl, true, false, some, String, ℤ, pos, List, [], ◌∷◌,
  arith,
}
use mathlib.Core.List.{Memᴰ}
use vibe_sync.Examples.Data.{differ, room, clients, now, now_ms, no_payload}
use vibe_sync.Sync.Float.{milli}
use vibe_sync.Sync.State.{cmd_pause}
use vibe_sync.Sync.Room.{RoomSync, StateProto, state_to_proto}
use vibe_sync.Sync.Room.Steps.{Event, authorized, ticks, run}
use vibe_sync.Playback.Room.{
  PlaybackRoom, SyncUpdatedV1, SyncCommand, apply_from_event, apply_sync_command,
}
use vibe_sync.Playback.Service.{read_command, cached}
use vibe_sync.Playback.Deliveries.{shows}
use vibe_sync.Playback.Convergence.{requests, mirror_converges}

abbrev lounge : RoomSync ℤ
lounge = room "ann" "" clients

abbrev history : List (Event ℤ)
history = authorized cmd_pause no_payload 3 now_ms now now ∷ ticks now now_ms now ∷ []

abbrev last : StateProto ℤ
last = state_to_proto (run history lounge)

abbrev arrived : List (StateProto ℤ × ℤ)
arrived = (last, now) ∷ (state_to_proto lounge, now) ∷ (last, now) ∷ []

-- The last state comes first, then the oldest one, then the last one again.
mirror_converges_example :
    shows (cached "lounge" (requests "lounge" arrived [])) ≡ read_command last
unfolding vibe_sync.Base.lookup vibe_sync.Playback.Room.blank run
mirror_converges_example =
    mirror_converges history lounge "lounge" arrived now [] (omega arith, omega arith)
      (differ "lounge" "" refl) (omega arith, omega arith)
      ((history, [], refl, refl), (([], history, refl, refl), ((history, [], refl, refl), tt)))
      (Memᴰ.head refl)

abbrev shown : PlaybackRoom ℤ
shown = record {
  room_id = "lounge";
  media_id = "film";
  status = pos 2;
  media_time_ms = pos 60000;
  wall_time_ms = pos 90000;
  playback_rate = pos 1000;
  epoch = 9;
  host_id = "ann";
  fencing_token = 18446744073709551615;
  updated_at = now;
}

abbrev late : SyncUpdatedV1 ℤ
late = record {
  room_id = "lounge";
  epoch = 5;
  status = pos 2;
  media_time = pos 0;
  wall_time = pos 0;
  rate = pos 1000;
  host_id = "ann";
  drift_ms = pos 0;
  peers = 2;
}

abbrev old : SyncCommand ℤ
old = record {
  media_id = "film";
  status = pos 1;
  media_time_ms = pos 50000;
  wall_time_ms = pos 80000;
  playback_rate = pos 0;
  epoch = 7;
  host_id = "ann";
  fencing_token = 18446744073709551615;
}
