-- ===== src/Sync/Room/Fencing.antt =====
-- Fencing tokens: a host that was replaced cannot command the room any more.
use vibe_sync.Base.{
  eq_iff, ℕ, ◌+◌, ◌≤◌, ◌<◌, ◌≡◌, ◌↔◌, inl, inr, refl, ap, List, [], ◌∷◌, length, true, false,
  Bool-cases, some, arith, String, str_eq, ℤ, inc64, uint64_mod, ◌⊎◌,
}
use vibe_sync.Sync.Room.Cases.{
  adopt_cases, check_cases, tick_cases, command_cases, authorized_cases,
}
use vibe_sync.Sync.State.Commands.{apply_command_frame}
use vibe_sync.Sync.State.{CommandKind, Payload}
use vibe_sync.Sync.Room.Migration.{
  migrate_host, orphaned, check_host_migration, owned, hosted, adopt_owner_if_unset,
}
use vibe_sync.Sync.Room.Requests.{
  commanded, process_heartbeat, process_command, process_command_authorized, register_subscriber,
  unregister_subscriber, receive, stale_fencing_token,
}
use vibe_sync.Sync.Room.Tick.{nudged, start, shutdown}
use vibe_sync.Sync.Room.Steps.{
  Event, ticks, snapshots, heartbeats, commands, authorized, adopts, registers, unregisters,
  receives, starts, stops, step, run,
}
use vibe_sync.Sync.Room.{RoomSync, broadcast, broadcast_snapshot, broadcast_update, add_to_ring}
use vibe_sync.Sync.Float.{Float64}

-- How a host change shows: the token stays while the host stays, or while there was no host;
-- else the token is the next one.
pub data Handover {F : Type 0} (rs : RoomSync F) (qs : RoomSync F) : Type 0 where
  kept :
      qs.state.fencing_token ≡ rs.state.fencing_token
      → qs.state.host_id ≡ rs.state.host_id
      → Handover rs qs
  elected : qs.state.fencing_token ≡ rs.state.fencing_token → rs.state.host_id ≡ "" → Handover rs qs
  fenced : qs.state.fencing_token ≡ inc64 rs.state.fencing_token → Handover rs qs

module _ {F : Type 0} ⦃fl : Float64 F⦄ where
  -- A command is accepted by the host's call exactly from the host itself with a token that is no
  -- smaller than the room's, by the pre-authorized call exactly with a token that is no smaller
  -- than the room's, be it one that was never issued; either call that does not accept it leaves
  -- the room as it is.
  pub command_fencing :
      (user : String) (kind : CommandKind) (p : Payload F) (token : ℕ) (now_ms now sent : ℤ)
      (rs : RoomSync F)
      → let (r, after) = process_command user kind p token now_ms now sent rs in
        let (r', after') = process_command_authorized kind p token now_ms now sent rs in
        ((r.accepted ≡ true) ↔ ((rs.state.fencing_token ≤ token) × (user ≡ rs.state.host_id)))
        × ((r'.accepted ≡ true) ↔ (rs.state.fencing_token ≤ token))
        × ((r.accepted ≡ true) ⊎ (after ≡ rs))
        × ((r'.accepted ≡ true) ⊎ (after' ≡ rs))
  unfolding process_command process_command_authorized
  command_fencing user kind p token now_ms now sent rs = (
    (
      λ h. ground (arith, eq_iff user rs.state.host_id),
      λ h. ground (arith, eq_iff user rs.state.host_id),
    ),
    (λ h. ground arith, λ h. ground arith),
    ground arith,
    ground arith,
  )

  updated :
      (sent : ℤ) (rs qs : RoomSync F) → Handover rs qs → Handover rs (broadcast_update sent qs)
  unfolding broadcast_update broadcast add_to_ring
  updated sent rs qs (kept t h) = kept t h
  updated sent rs qs (elected t h) = elected t h
  updated sent rs qs (fenced t) = fenced t

  check-Handover :
      (now sent : ℤ) (rs qs : RoomSync F)
      → qs.state.fencing_token ≡ rs.state.fencing_token
      → qs.state.host_id ≡ rs.state.host_id
      → Handover rs (check_host_migration now sent qs)
  unfolding orphaned migrate_host broadcast
  check-Handover now sent rs qs t h =
      check_cases (Handover rs) now sent qs (kept t h) (λ id. fenced (ap inc64 t))
        (updated sent rs (orphaned qs) (kept t h))

  abbrev Same : RoomSync F → RoomSync F → Type 0
  Same rs qs =
      (qs.state.fencing_token ≡ rs.state.fencing_token) × (qs.state.host_id ≡ rs.state.host_id)

  Same-update : (sent : ℤ) (rs qs : RoomSync F) → Same rs qs → Same rs (broadcast_update sent qs)
  unfolding broadcast_update broadcast add_to_ring
  Same-update sent rs qs h = h

  commanded-Handover :
      (kind : CommandKind) (p : Payload F) (now_ms now sent : ℤ) (rs : RoomSync F)
      → Handover rs (broadcast_update sent (commanded kind p now_ms now rs))
  unfolding commanded
  commanded-Handover kind p now_ms now sent rs =
      let f = apply_command_frame kind p now_ms now rs.state in
      updated sent rs (commanded kind p now_ms now rs) (kept f.2 f.1)

  adopted_kept :
      (owner : String) (now sent : ℤ) (rs : RoomSync F)
      → str_eq rs.state.host_id "" ≡ false
      → Same rs (adopt_owner_if_unset owner now sent rs).1
  unfolding adopt_owner_if_unset owned
  adopted_kept owner now sent rs e = (ground arith, ground arith)

  adopted-Handover :
      (owner : String) (now sent : ℤ) (rs : RoomSync F)
      → Handover rs (adopt_owner_if_unset owner now sent rs).1
  unfolding owned hosted
  adopted-Handover owner now sent rs = elim (Bool-cases (str_eq rs.state.host_id "")) [
    | inl e ↦
        let hostless = (eq_iff rs.state.host_id "").0 e in
        adopt_cases (Handover rs) owner now sent rs (kept refl refl) (kept refl refl)
          (updated sent rs (hosted owner now rs) (elected refl hostless))
          (updated sent rs (hosted owner now (owned owner rs)) (elected refl hostless))
    | inr e ↦ let same = adopted_kept owner now sent rs e in kept same.0 same.1
  ]

  -- The host of a room changes only together with its fencing token, unless the room had no host.
  pub step-Handover : (e : Event F) (rs : RoomSync F) → Handover rs (step e rs)
  unfolding step nudged broadcast add_to_ring broadcast_snapshot process_heartbeat
      register_subscriber unregister_subscriber receive start shutdown
  step-Handover (ticks now now_ms sent) rs =
      tick_cases (Same rs) (Handover rs) now now_ms sent rs
        (λ r h. check-Handover now sent rs r h.0 h.1) (refl, refl) (λ dc. (refl, refl))
        (λ result dc.
          Same-update sent rs (nudged result now_ms (record rs { controller = dc })) (refl, refl))
        (λ dc. updated sent rs (record rs { controller = dc }) (kept refl refl))
  step-Handover (snapshots now sent) rs = kept refl refl
  step-Handover (heartbeats user media wall t2 now t3) rs = kept refl refl
  step-Handover (commands user kind p token now_ms now sent) rs =
      command_cases (Handover rs) user kind p token now_ms now sent rs (kept refl refl)
        (commanded-Handover kind p now_ms now sent rs)
  step-Handover (authorized kind p token now_ms now sent) rs =
      authorized_cases (Handover rs) kind p token now_ms now sent rs (kept refl refl)
        (commanded-Handover kind p now_ms now sent rs)
  step-Handover (adopts owner now sent) rs = adopted-Handover owner now sent rs
  step-Handover registers rs = kept refl refl
  step-Handover (unregisters ch) rs = kept refl refl
  step-Handover (receives ch) rs = kept refl refl
  step-Handover starts rs = kept refl refl
  step-Handover stops rs = kept (ground arith) (ground arith)

  token_step :
      (e : Event F) (rs : RoomSync F)
      → rs.state.fencing_token + 1 < uint64_mod
      → (rs.state.fencing_token ≤ (step e rs).state.fencing_token)
        × ((step e rs).state.fencing_token ≤ rs.state.fencing_token + 1)
  token_step e rs small = go (step-Handover e rs)
    where
      go :
          Handover rs (step e rs)
          → (rs.state.fencing_token ≤ (step e rs).state.fencing_token)
            × ((step e rs).state.fencing_token ≤ rs.state.fencing_token + 1)
      go (kept t h) = omega (arith, t)
      go (elected t h) = omega (arith, t)
      go (fenced t) = omega (arith, t)

  token_monotone :
      (es : List (Event F)) (rs : RoomSync F)
      → rs.state.fencing_token + length es < uint64_mod
      → rs.state.fencing_token ≤ (run es rs).state.fencing_token
  unfolding run
  token_monotone [] rs small = omega arith
  token_monotone (e ∷ es) rs small =
      let one = token_step e rs (omega arith) in
      omega (arith, one, token_monotone es (step e rs) (omega (arith, one)))

  -- Once the host role was handed over, the call that applies commands rejects every command with
  -- a token of the time before, as stale and without a change, after any further events, as long
  -- as they are too few for the token counter to wrap around.
  pub old_token_rejected :
      (successor : String) (at : ℤ) (es : List (Event F)) (rs : RoomSync F) (kind : CommandKind)
      (p : Payload F) (token : ℕ) (now_ms now sent : ℤ)
      → rs.state.fencing_token + 1 + length es < uint64_mod
      → token ≤ rs.state.fencing_token
      → let late = run es (migrate_host successor at rs) in
        process_command_authorized kind p token now_ms now sent late ≡ (
          record { epoch = late.state.epoch; accepted = false; reason = some stale_fencing_token },
          late,
        )
  unfolding process_command_authorized migrate_host broadcast
  old_token_rejected successor at es rs kind p token now_ms now sent small old =
      ground (arith, token_monotone es (migrate_host successor at rs) (omega arith))
