-- ===== src/Sync/Room/Recovery.antt =====
-- What a client gets that reconnects: the frames that it missed, or a snapshot.
use vibe_sync.Sync.State.{apply_command, CommandKind, Payload}
use vibe_sync.Sync.State.Commands.{apply_command_frame}
use vibe_sync.Sync.Room.Versions.{Rising, IsOrdered, Rising-le, Rising-drop}
use vibe_sync.Base.{
  drop-append, ℕ, ◌+◌, ◌-◌, ◌≤◌, ◌<◌, ◌≡◌, ◌⊎◌, refl, ap, ◌∙◌, List, [], ◌∷◌, ◌++◌, length,
  length-append, drop, arith, String, ℤ, uint64_mod,
}
use vibe_sync.Sync.Room.Migration.{migrate_host}
use vibe_sync.Sync.Room.Requests.{commanded, recover, full, replay, frames_after}
use vibe_sync.Sync.Room.{
  RoomSync, FrameEntry, ring_size, update, state_to_proto, broadcast, broadcast_update, add_to_ring,
  trim, build_snapshot,
}
use vibe_sync.Sync.Float.{Float64}

module _ {F : Type 0} ⦃fl : Float64 F⦄ where
  -- A client that is not ahead of the room gets frames exactly if it has seen an epoch and is at
  -- most the ring's size behind; and then those of the buffer that are newer than what it has.
  pub recover_lem :
      (since : ℕ) (now : ℤ) (rs : RoomSync F)
      → rs.state.epoch < uint64_mod
      → since ≤ rs.state.epoch
      → (0 < since
          → rs.state.epoch ≤ since + ring_size rs.cfg
          → recover since now rs ≡ replay (frames_after since rs.ring_buffer))
        × ((since ≡ 0) ⊎ (since + ring_size rs.cfg < rs.state.epoch)
            → recover since now rs ≡ full (build_snapshot now rs))
  unfolding recover
  recover_lem since now rs small behind = (λ p l. ground arith, λ h. ground arith)

  frames_after-Rising :
      (since lo : ℕ) (es : List (FrameEntry F)) → Rising lo es since → frames_after since es ≡ []
  unfolding frames_after
  frames_after-Rising since lo [] h = refl
  frames_after-Rising since lo (e ∷ es) h =
      ground (arith, frames_after-Rising since e.epoch es h.1, Rising-le e.epoch es since h.1)

  frames_after-append :
      (since : ℕ) (es : List (FrameEntry F)) (x : FrameEntry F)
      → since < x.epoch
      → frames_after since (es ++ x ∷ []) ≡ frames_after since es ++ x.frame ∷ []
  unfolding frames_after
  frames_after-append since [] x h = ground arith
  frames_after-append since (e ∷ es) x h = ground (arith, frames_after-append since es x h)

  frames_after-trim :
      (since size : ℕ) (es : List (FrameEntry F)) (x : FrameEntry F)
      → 0 < size
      → Rising 0 es since
      → since < x.epoch
      → frames_after since (trim size (es ++ x ∷ [])) ≡ x.frame ∷ []
  unfolding trim
  frames_after-trim since size es x pos_size h later =
      let cut : ℕ = length (es ++ x ∷ []) - size in
      let size_lem = length-append {0} es (x ∷ []) in
      ground (
        arith,
        size_lem,
        drop-append {0} cut es (x ∷ []) (omega (arith, size_lem)),
        frames_after-append since (drop cut es) x later,
        frames_after-append since es x later,
        frames_after-Rising since 0 es h,
        frames_after-Rising since 0 (drop cut es) (Rising-drop cut 0 es since h),
      )

  -- Where the ring buffer is in order and has space for a frame, and the epoch is neither 0 nor
  -- about to wrap around, a client that was up to date just before a command gets exactly the
  -- update that the command made.
  pub recover-command :
      (kind : CommandKind) (p : Payload F) (now_ms at sent now : ℤ) (rs : RoomSync F)
      → IsOrdered rs
      → 0 < ring_size rs.cfg
      → 0 < rs.state.epoch
      → rs.state.epoch + 1 < uint64_mod
      → let after = commanded kind p now_ms at rs in
        recover rs.state.epoch now (broadcast_update sent after)
        ≡ replay (update sent (state_to_proto after) ∷ [])
  unfolding commanded broadcast_update add_to_ring broadcast
  recover-command kind p now_ms at sent now rs h room old small =
      let after : RoomSync F = commanded kind p now_ms at rs in
      let entry : FrameEntry F = record {
        epoch = after.state.epoch;
        frame = update sent (state_to_proto after);
      } in
      let next : (apply_command kind p now_ms at rs.state).epoch ≡ rs.state.epoch + 1 =
        omega (arith, (apply_command_frame kind p now_ms at rs.state).0) in
      (recover_lem rs.state.epoch now (broadcast_update sent after) (omega (arith, next))
          (omega (arith, next))).0
        old (omega (arith, next))
      ∙ ap replay (
          frames_after-trim rs.state.epoch (ring_size rs.cfg) rs.ring_buffer entry room h
            (omega (arith, next)))

  -- Where the ring buffer is in order and has space for a frame, and the epoch is neither 0 nor
  -- about to wrap around, a client that was up to date just before a host migration, and recovers
  -- just after it, gets an empty replay: the migration leaves no frame in the ring buffer.
  pub recover-migration :
      (successor : String) (at now : ℤ) (rs : RoomSync F)
      → IsOrdered rs
      → 0 < ring_size rs.cfg
      → 0 < rs.state.epoch
      → rs.state.epoch + 1 < uint64_mod
      → recover rs.state.epoch now (migrate_host successor at rs) ≡ replay []
  unfolding migrate_host broadcast
  recover-migration successor at now rs h room old small =
      (recover_lem rs.state.epoch now (migrate_host successor at rs) (omega arith) (omega arith)).0
        old (omega arith)
      ∙ ap replay (frames_after-Rising rs.state.epoch 0 rs.ring_buffer h)
