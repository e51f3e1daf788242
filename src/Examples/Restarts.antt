-- ===== src/Examples/Restarts.antt =====
-- Examples on checkpoints and restarts.
use vibe_sync.Base.{◌≡◌, refl, true, false, ℤ, pos, [], ◌∷◌, lookup, arith}
use vibe_sync.Examples.Data.{cfg, movie, room, clients, now, now_ms, no_payload}
use vibe_sync.Sync.Float.{milli}
use vibe_sync.Sync.State.{cmd_pause}
use vibe_sync.Sync.Room.{RoomSync}
use vibe_sync.Sync.Room.Requests.{process_command_authorized}
use vibe_sync.Sync.Service.{fresh_state}
use vibe_sync.Sync.Persistence.{Process, checkpoint, restart, open_room}
use vibe_sync.Sync.Persistence.Restart.{restart-checkpoint, unreadable_row_lost}
use vibe_sync.Playback.Room.{PlaybackRoom, apply_sync_command}
use vibe_sync.Playback.Authority.{sync_command}
use vibe_sync.Playback.Restarts.{restart_refused}

abbrev lounge : RoomSync ℤ
lounge = room "ann" "ann" clients

abbrev running : Process ℤ
running = record { manager = record { cfg = cfg; rooms = ("lounge", lounge) ∷ [] }; table = [] }

restart-checkpoint_example :
    (open_room "lounge" true (restart (checkpoint "lounge" true now running))).0.state
    ≡ record (movie "ann" "ann") { epoch_started = now }
unfolding lookup
restart-checkpoint_example = restart-checkpoint running lounge now refl (omega arith) (omega arith)

unreadable_row_lost_example :
    (open_room "lounge" true (
      restart (
        checkpoint "lounge" true now
          (open_room "lounge" false (restart (checkpoint "lounge" true now running))).1))).0.state
    ≡ record (fresh_state "lounge" "") { epoch_started = now }
unreadable_row_lost_example =
    unreadable_row_lost "lounge" (checkpoint "lounge" true now running) now

-- A mirror that saw one more command than the checkpoint.
abbrev mirror : PlaybackRoom ℤ
mirror = record {
  room_id = "lounge";
  media_id = "film";
  status = pos 2;
  media_time_ms = pos 60000;
  wall_time_ms = pos 90000;
  playback_rate = pos 1000;
  epoch = 5;
  host_id = "ann";
  fencing_token = 2;
  updated_at = now;
}

abbrev opened : RoomSync ℤ
opened = (open_room "lounge" true (restart (checkpoint "lounge" true now running))).0

restart_refused_example :
    apply_sync_command
      (sync_command
        (process_command_authorized cmd_pause no_payload 2 now_ms now now opened).1.state)
      now
      mirror
    ≡ (false, mirror)
unfolding lookup
restart_refused_example =
    restart_refused running lounge now mirror refl (omega arith) (omega arith) (omega arith) refl
      cmd_pause no_payload 2 now_ms now now now
