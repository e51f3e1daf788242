-- ===== src/Sync/Room/Steps.antt =====
-- room_sync.go: everything that can happen to a room, one critical section of the mutex at a time.
use vibe_sync.Base.{ℕ, String, ℤ, List, [], ◌∷◌}
use vibe_sync.Sync.Float.{Float64}
use vibe_sync.Sync.State.{CommandKind, Payload}
use vibe_sync.Sync.Room.{RoomSync, broadcast_snapshot}
use vibe_sync.Sync.Room.Migration.{adopt_owner_if_unset}
use vibe_sync.Sync.Room.Requests.{
  process_heartbeat, process_command, process_command_authorized, register_subscriber,
  unregister_subscriber, receive,
}
use vibe_sync.Sync.Room.Tick.{tick, start, shutdown}

-- The readings of the clock come last in each event, in the order in which the code makes them.
pub data Event (F : Type 0) : Type 0 where
  ticks : ℤ → ℤ → ℤ → Event F
  snapshots : ℤ → ℤ → Event F
  heartbeats : String → ℤ → ℤ → ℤ → ℤ → ℤ → Event F
  commands : String → CommandKind → Payload F → ℕ → ℤ → ℤ → ℤ → Event F
  authorized : CommandKind → Payload F → ℕ → ℤ → ℤ → ℤ → Event F
  adopts : String → ℤ → ℤ → Event F
  registers : Event F
  unregisters : ℕ → Event F
  receives : ℕ → Event F
  starts : Event F
  stops : Event F

module _ {F : Type 0} ⦃fl : Float64 F⦄ where
  unfoldable pub step : Event F → RoomSync F → RoomSync F
  step (ticks now now_ms sent) rs = tick now now_ms sent rs
  step (snapshots now sent) rs = broadcast_snapshot now sent rs
  step (heartbeats user media wall t2 now t3) rs =
      (process_heartbeat user media wall t2 now t3 rs).1
  step (commands user kind p token now_ms now sent) rs =
      (process_command user kind p token now_ms now sent rs).1
  step (authorized kind p token now_ms now sent) rs =
      (process_command_authorized kind p token now_ms now sent rs).1
  step (adopts owner now sent) rs = (adopt_owner_if_unset owner now sent rs).1
  step registers rs = (register_subscriber rs).1
  step (unregisters ch) rs = unregister_subscriber ch rs
  step (receives ch) rs = receive ch rs
  step starts rs = start rs
  step stops rs = shutdown rs

  unfoldable pub run : List (Event F) → RoomSync F → RoomSync F
  run [] rs = rs
  run (e ∷ es) rs = run es (step e rs)
