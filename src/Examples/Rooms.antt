-- ===== src/Examples/Rooms.antt =====
-- Examples on rooms: fencing, succession, epochs, recovery and access.
use vibe_sync.Sync.Service.{Meanwhile, room_now}
use vibe_sync.Base.{◌↔◌, ◌≤◌, true}
use vibe_sync.Base.{
  ◌-ℤ◌, refl, ◌↔◌, ◌⊎◌, ◌≢◌, Bool, Option, ◌≤◌, ◌≡◌, ℤ, List, some, false, [], ◌∷◌, arith, true,
  none, lookup, inl,
}
use vibe_sync.Sync.State.{apply_command, is_playing, cmd_pause, cmd_play}
use vibe_sync.Sync.Service.{
  authorize_command, granted, command_permission, perform, RoomPermission, pause_play, command,
  get_or_create, RoomManager,
}
use vibe_sync.Sync.Room.Requests.{
  apply_command_locked, process_command_authorized, stale_fencing_token, process_command, commanded,
  recover, CommandReply, replay,
}
use vibe_sync.Sync.Room.Tick.{new_room_sync}
use vibe_sync.Sync.Heartbeat.{is_alive, sub_time}
use vibe_sync.Sync.Room.{ring_size, RoomSync, broadcast_update, update, state_to_proto}
use vibe_sync.Examples.Data.{ann, bob, room, clients, now, now_ms, no_payload, cfg, movie}
use vibe_sync.Sync.Room.Succession.{Elects, check-Elects}
use vibe_sync.Sync.Room.Recovery.{recover-command, recover-migration}
use vibe_sync.Sync.Room.Bounds.{IsBounded, memory-IsBounded}
use vibe_sync.Sync.Service.Access.{MayCommand, RunsOn, command-MayCommand}
use vibe_sync.Sync.Room.Versions.{IsOrdered, run_versions}
use vibe_sync.Sync.Float.{milli}
use vibe_sync.Sync.Room.Migration.{migrate_host, select_successor, check_host_migration, is_present}
use vibe_sync.Sync.Room.Steps.{Event, ticks, authorized, registers, run, step}
use vibe_sync.Sync.Room.Fencing.{old_token_rejected, Handover, command_fencing, step-Handover}

abbrev lounge : RoomSync ℤ
lounge = room "ann" "" clients

abbrev history : List (Event ℤ)
history = registers ∷ authorized cmd_play no_payload 3 now_ms now now ∷ ticks now now_ms now ∷ []

old_token_rejected_example :
    let late = run history (migrate_host "bob" now lounge) in
    process_command_authorized cmd_pause no_payload 2 now_ms now now late ≡ (
      record { epoch = late.state.epoch; accepted = false; reason = some stale_fencing_token },
      late,
    )
old_token_rejected_example =
    old_token_rejected "bob" now history lounge cmd_pause no_payload 2 now_ms now now (ground arith)
      (ground arith)

command_fencing_example :
    let (r, after) = process_command "ann" cmd_pause no_payload 1 now_ms now now lounge in
    let (r', after') = process_command_authorized cmd_pause no_payload 1 now_ms now now lounge in
    ((r.accepted ≡ true) ↔ ((2 ≤ 1) × (ann ≡ ann)))
    × ((r'.accepted ≡ true) ↔ (2 ≤ 1))
    × ((r.accepted ≡ true) ⊎ (after ≡ lounge))
    × ((r'.accepted ≡ true) ⊎ (after' ≡ lounge))
command_fencing_example = command_fencing "ann" cmd_pause no_payload 1 now_ms now now lounge

step-Handover_example : Handover lounge (step (ticks now now_ms now) lounge)
step-Handover_example = step-Handover (ticks now now_ms now) lounge

check-Elects_example :
    let s = select_successor now "ann" lounge in
    let after = check_host_migration now now lounge in
    Elects now "ann" lounge s
    × ((s ≢ "") × (after ≡ migrate_host s now lounge)
        ⊎ ((s ≡ "")
            × (after.state.host_id ≡ "ann")
            × ((ann ≡ "") ⊎ (is_playing after.state.status ≡ false))))
unfolding is_present is_alive sub_time lookup ◌-ℤ◌
check-Elects_example = check-Elects now now lounge (inl refl) refl

-- Bob owns the room, and is back.
abbrev bobs : RoomSync ℤ
bobs = room "ann" "bob" clients

-- Cleo hosts a room whose owner ann is away.
abbrev cleos : RoomSync ℤ
cleos = room "cleo" "ann" clients

run_versions_example : IsOrdered (run history lounge) × (4 ≤ (run history lounge).state.epoch)
run_versions_example = run_versions history lounge (ground arith) (ground arith)

recover-command_example :
    let after = commanded cmd_pause no_payload now_ms now lounge in
    recover 4 now (broadcast_update now after) ≡ replay (update now (state_to_proto after) ∷ [])
unfolding ring_size
recover-command_example =
    recover-command cmd_pause no_payload now_ms now now now lounge (ground arith) (ground arith)
      (ground arith) (ground arith)

recover-migration_example : recover 4 now (migrate_host "bob" now lounge) ≡ replay []
unfolding ring_size
recover-migration_example =
    recover-migration "bob" now now lounge (ground arith) (ground arith) (ground arith)
      (ground arith)

memory-IsBounded_example : IsBounded (run history (new_room_sync cfg "lounge" (movie "ann" "")))
memory-IsBounded_example = memory-IsBounded cfg "lounge" (movie "ann" "") history

abbrev manager : RoomManager ℤ
manager = record { cfg = cfg; rooms = ("lounge", lounge) ∷ [] }

abbrev answer : CommandReply
answer = record { epoch = 5; accepted = true; reason = none }

abbrev may_pause : RoomPermission → Option Bool
may_pause pause_play = some true
may_pause _ = some false

-- Before the command runs, bob becomes the owner of the room.
abbrev gaps : Meanwhile ℤ
gaps = record {
  before_host = λ m. m;
  before_owner = λ m. m;
  before_run = λ m. record m { rooms = ("lounge", bobs) ∷ [] };
}

command-MayCommand_example :
    (bob ≢ "")
    × MayCommand lounge.state.host_id lounge.state.owner_id "bob" cmd_pause may_pause
    × RunsOn bobs "lounge" cmd_pause no_payload 2 now_ms now now answer
        (command false "lounge" "bob" cmd_pause no_payload 2 none may_pause now_ms now now gaps
          manager).1
    × ((answer.accepted ≡ true) ↔ (bobs.state.fencing_token ≤ 2))
unfolding command get_or_create lookup room_now authorize_command granted command_permission perform
    process_command_authorized apply_command_locked broadcast_update commanded apply_command
command-MayCommand_example =
    command-MayCommand "lounge" "bob" cmd_pause no_payload 2 none may_pause now_ms now now gaps
      manager answer refl
