-- ===== src/Playback/Restarts.antt =====
-- A mirror (apps/playback-service) after a restart of the sync service.
use vibe_sync.Base.{
  ℕ, ◌+◌, ◌≤◌, ◌<◌, ◌≡◌, sym, ap, ◌∙◌, true, false, some, ℤ, lookup, arith, uint64_mod,
}
use vibe_sync.Sync.Float.{Float64}
use vibe_sync.Sync.State.{SyncState, CommandKind, Payload}
use vibe_sync.Sync.State.Commands.{apply_command_frame}
use vibe_sync.Sync.Room.{RoomSync, broadcast_update, broadcast, add_to_ring}
use vibe_sync.Sync.Room.Requests.{process_command_authorized, apply_command_locked, commanded}
use vibe_sync.Sync.Persistence.{Process, checkpoint, restart, open_room}
use vibe_sync.Sync.Persistence.Restart.{restart-checkpoint}
use vibe_sync.Playback.Room.{PlaybackRoom, apply_sync_command}
use vibe_sync.Playback.Authority.{sync_command}

module _ {F : Type 0} ⦃fl : Float64 F⦄ where
  command-near :
      (kind : CommandKind) (p : Payload F) (token : ℕ) (now_ms now sent : ℤ) (rs : RoomSync F)
      → rs.state.epoch + 1 < uint64_mod
      → let s = (process_command_authorized kind p token now_ms now sent rs).1.state in
        (s.epoch ≤ rs.state.epoch + 1) × (s.fencing_token ≡ rs.state.fencing_token)
  unfolding process_command_authorized apply_command_locked commanded broadcast_update broadcast
      add_to_ring
  command-near kind p token now_ms now sent rs h =
      let frame = apply_command_frame kind p now_ms now rs.state in
      (ground (arith, frame), ground (arith, frame))

  stale-refused :
      (s : SyncState F) (r : PlaybackRoom F) (at : ℤ)
      → s.epoch ≤ r.epoch
      → s.fencing_token ≡ r.fencing_token
      → apply_sync_command (sync_command s) at r ≡ (false, r)
  unfolding apply_sync_command
  stale-refused s r at h k = ground arith

  -- A mirror that has applied a command after the last checkpoint of a room, so that it is at least
  -- one epoch ahead of it with the same fencing token, refuses the state that the first command
  -- after a restart makes: the room is opened at the epoch of the checkpoint and counts the same
  -- epochs again, and the mirror takes them for ones that it has seen.
  pub restart_refused :
      (p : Process F) (rs : RoomSync F) (stored : ℤ) (r : PlaybackRoom F)
      → lookup rs.state.room_id p.manager.rooms ≡ some rs
      → rs.state.epoch + 1 < uint64_mod
      → rs.state.fencing_token < uint64_mod
      → rs.state.epoch < r.epoch
      → r.fencing_token ≡ rs.state.fencing_token
      → (kind : CommandKind) (q : Payload F) (token : ℕ) (now_ms now sent at : ℤ)
      → let opened =
          (open_room rs.state.room_id true
            (restart (checkpoint rs.state.room_id true stored p))).0 in
        apply_sync_command
          (sync_command (process_command_authorized kind q token now_ms now sent opened).1.state)
          at
          r
        ≡ (false, r)
  restart_refused p rs stored r found e f ahead same kind q token now_ms now sent at =
      let opened =
        (open_room rs.state.room_id true (restart (checkpoint rs.state.room_id true stored p))).0 in
      let back = restart-checkpoint p rs stored found (omega arith) f in
      let epoch : opened.state.epoch ≡ rs.state.epoch = ap (λ (s : SyncState F). s.epoch) back in
      let fencing : opened.state.fencing_token ≡ rs.state.fencing_token =
        ap (λ (s : SyncState F). s.fencing_token) back in
      let (near, kept) = command-near kind q token now_ms now sent opened (omega arith) in
      stale-refused (process_command_authorized kind q token now_ms now sent opened).1.state r at
        (omega arith) (kept ∙ fencing ∙ sym same)
