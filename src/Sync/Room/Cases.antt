-- ===== src/Sync/Room/Cases.antt =====
-- Rules that take the branching operations of room_sync.go apart, one premise for each outcome.
use vibe_sync.Base.{String, ℤ, arith, ℕ}
use vibe_sync.Sync.Float.{Float64}
use vibe_sync.Sync.State.{CommandKind, Payload}
use vibe_sync.Sync.Drift.{DriftController, ControllerResult, reset}
use vibe_sync.Sync.Room.{RoomSync, broadcast_update}
use vibe_sync.Sync.Room.Migration.{
  migrate_host, pause_orphan, orphaned, preferred_successor, check_host_migration,
  adopt_owner_if_unset, owned, hosted,
}
use vibe_sync.Sync.Room.Requests.{process_command, process_command_authorized, commanded}
use vibe_sync.Sync.Room.Tick.{tick, measure, nudge, nudged, tick_corrected}

module _ {F : Type 0} ⦃fl : Float64 F⦄ (P : RoomSync F → Type 0) where
  pub check_cases :
      (now sent : ℤ) (rs : RoomSync F)
      → P rs
      → ((s : String) → P (migrate_host s now rs))
      → P (broadcast_update sent (orphaned rs))
      → P (check_host_migration now sent rs)
  unfolding check_host_migration pause_orphan
  check_cases now sent rs keep handed paused = ground (
    arith,
    handed rs.state.owner_id,
    handed (preferred_successor now "" rs),
    handed (preferred_successor now rs.state.host_id rs),
  )

  pub nudge_cases :
      (result : ControllerResult F) (now_ms sent : ℤ) (rs : RoomSync F)
      → P rs
      → P (broadcast_update sent (nudged result now_ms rs))
      → P (nudge result now_ms sent rs)
  unfolding nudge
  nudge_cases result now_ms sent rs keep moved = ground arith

  pub adopt_cases :
      (owner : String) (now sent : ℤ) (rs : RoomSync F)
      → P rs
      → P (owned owner rs)
      → P (broadcast_update sent (hosted owner now rs))
      → P (broadcast_update sent (hosted owner now (owned owner rs)))
      → P (adopt_owner_if_unset owner now sent rs).1
  unfolding adopt_owner_if_unset
  adopt_cases owner now sent rs keep known h1 h2 = ground arith

  pub authorized_cases :
      (kind : CommandKind) (p : Payload F) (token : ℕ) (now_ms now sent : ℤ) (rs : RoomSync F)
      → P rs
      → P (broadcast_update sent (commanded kind p now_ms now rs))
      → P (process_command_authorized kind p token now_ms now sent rs).1
  unfolding process_command_authorized
  authorized_cases kind p token now_ms now sent rs keep moved = ground arith

  pub command_cases :
      (user : String) (kind : CommandKind) (p : Payload F) (token : ℕ) (now_ms now sent : ℤ)
      (rs : RoomSync F)
      → P rs
      → P (broadcast_update sent (commanded kind p now_ms now rs))
      → P (process_command user kind p token now_ms now sent rs).1
  unfolding process_command
  command_cases user kind p token now_ms now sent rs keep moved = ground arith

module _ {F : Type 0} ⦃fl : Float64 F⦄ (Q P : RoomSync F → Type 0) where
  -- A tick is a liveness check, of the room as it is or with new controller data and perhaps a
  -- corrected position; or the update that a discontinuity forces.
  pub tick_cases :
      (now now_ms sent : ℤ) (rs : RoomSync F)
      → ((r : RoomSync F) → Q r → P (check_host_migration now sent r))
      → Q rs
      → ((dc : DriftController F) → Q (record rs { controller = dc }))
      → ((result : ControllerResult F) (dc : DriftController F)
          → Q (broadcast_update sent (nudged result now_ms (record rs { controller = dc }))))
      → ((dc : DriftController F) → P (broadcast_update sent (record rs { controller = dc })))
      → P (tick now now_ms sent rs)
  unfolding tick tick_corrected
  tick_cases now now_ms sent rs check keep controlled moved forced =
      let (result, dc) = measure now rs in
      let with_dc : RoomSync F = record rs { controller = dc } in
      ground (
        arith,
        check rs keep,
        forced (reset dc),
        check (nudge result now_ms sent with_dc)
            (nudge_cases Q result now_ms sent with_dc (controlled dc) (moved result dc)),
      )
