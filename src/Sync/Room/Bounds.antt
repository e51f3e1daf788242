-- ===== src/Sync/Room/Bounds.antt =====
-- The memory that a room holds is bounded: its ring buffer and its subscribers' buffers.
use vibe_sync.Base.{
  ℕ, ◌-◌, ◌≤◌, ◌≡◌, refl, List, [], ◌∷◌, map, All, length, length-append, length-drop, select, Bool,
  arith, if◌then◌else◌, String, ℤ, ◌==◌,
}
use vibe_sync.Sync.Float.{Float64}
use vibe_sync.Sync.State.{SyncState}
use vibe_sync.Sync.Room.{
  SyncConfig, RoomSync, Subscriber, Frame, FrameEntry, ring_size, channel_capacity, offer,
  broadcast, trim, add_to_ring, broadcast_update, broadcast_snapshot,
}
use vibe_sync.Sync.Room.Migration.{migrate_host, check_host_migration, owned, hosted, orphaned}
use vibe_sync.Sync.Room.Requests.{
  process_heartbeat, process_command, process_command_authorized, commanded, register_subscriber,
  unregister_subscriber, receive, take_frame,
}
use vibe_sync.Sync.Room.Tick.{new_room_sync, start, shutdown, nudged}
use vibe_sync.Sync.Room.Cases.{
  check_cases, tick_cases, adopt_cases, command_cases, authorized_cases,
}
use vibe_sync.Sync.Room.Steps.{
  Event, ticks, snapshots, heartbeats, commands, authorized, adopts, registers, unregisters,
  receives, starts, stops, step, run,
}

module _ {F : Type 0} where
  abbrev pub Fits : Subscriber F → Type 0
  Fits s = length s.queue ≤ channel_capacity

  pub record IsBounded (rs : RoomSync F) : Type 0 where
    pub ring : length rs.ring_buffer ≤ ring_size rs.cfg
    pub queues : All Fits rs.subscribers

  length-trim : (size : ℕ) (ring : List (FrameEntry F)) → length (trim size ring) ≤ size
  unfolding trim
  length-trim size ring = ground (arith, length-drop {0} (length ring - size) ring)

  All-offer : (f : Frame F) (ss : List (Subscriber F)) → All Fits ss → All Fits (map (offer f) ss)
  All-offer f [] h = tt
  All-offer f (s ∷ ss) h = (ground (arith, length-append {0} s.queue (f ∷ [])), All-offer f ss h.1)

  All-select :
      (p : Subscriber F → Bool) (ss : List (Subscriber F)) → All Fits ss → All Fits (select p ss)
  All-select p [] h = tt
  All-select p (s ∷ ss) h = ground (arith, All-select p ss h.1)

  All-receive :
      (ch : ℕ) (ss : List (Subscriber F))
      → All Fits ss
      → All Fits (map (λ s. if s.channel == ch then take_frame s else s) ss)
  unfolding take_frame
  All-receive ch [] h = tt
  All-receive ch (s ∷ ss) h = (ground arith, All-receive ch ss h.1)

  broadcast-IsBounded : (f : Frame F) (rs : RoomSync F) → IsBounded rs → IsBounded (broadcast f rs)
  unfolding broadcast
  broadcast-IsBounded f rs h = record {
    ring = h.ring;
    queues = All-offer f rs.subscribers h.queues;
  }

  add_to_ring-IsBounded :
      (f : Frame F) (rs : RoomSync F) → IsBounded rs → IsBounded (add_to_ring f rs)
  unfolding add_to_ring
  add_to_ring-IsBounded f rs h = record { ring = length-trim _ _; queues = h.queues }

  broadcast_update-IsBounded :
      (now : ℤ) (rs : RoomSync F) → IsBounded rs → IsBounded (broadcast_update now rs)
  unfolding broadcast_update
  broadcast_update-IsBounded now rs h = broadcast-IsBounded _ _ (add_to_ring-IsBounded _ rs h)

module _ {F : Type 0} ⦃fl : Float64 F⦄ where
  migrate_host-IsBounded :
      (s : String) (now : ℤ) (rs : RoomSync F) → IsBounded rs → IsBounded (migrate_host s now rs)
  unfolding migrate_host
  migrate_host-IsBounded s now rs h =
      broadcast-IsBounded _ _ (record { ring = h.ring; queues = h.queues })

  -- Only the ring and the buffers matter.
  elsewhere :
      (rs qs : RoomSync F)
      → qs.ring_buffer ≡ rs.ring_buffer
      → qs.subscribers ≡ rs.subscribers
      → qs.cfg ≡ rs.cfg
      → IsBounded rs
      → IsBounded qs
  elsewhere rs qs r s c h = record { ring = rw (r, c) h.ring; queues = rw s h.queues }

  updated :
      (sent : ℤ) (rs qs : RoomSync F)
      → qs.ring_buffer ≡ rs.ring_buffer
      → qs.subscribers ≡ rs.subscribers
      → qs.cfg ≡ rs.cfg
      → IsBounded rs
      → IsBounded (broadcast_update sent qs)
  updated sent rs qs r s c h = broadcast_update-IsBounded sent qs (elsewhere rs qs r s c h)

  check-IsBounded :
      (now sent : ℤ) (rs : RoomSync F) → IsBounded rs → IsBounded (check_host_migration now sent rs)
  unfolding orphaned
  check-IsBounded now sent rs h =
      check_cases IsBounded now sent rs h (λ s. migrate_host-IsBounded s now rs h)
        (updated sent rs (orphaned rs) refl refl refl h)

  -- No event makes the ring buffer longer than configured, or a subscriber's buffer longer than
  -- its channel.
  pub step-IsBounded : (e : Event F) (rs : RoomSync F) → IsBounded rs → IsBounded (step e rs)
  unfolding step nudged owned hosted broadcast_snapshot process_heartbeat process_command
      process_command_authorized register_subscriber unregister_subscriber receive start shutdown
      commanded
  step-IsBounded (ticks now now_ms sent) rs h =
      tick_cases IsBounded IsBounded now now_ms sent rs (check-IsBounded now sent) h
        (λ dc. elsewhere rs _ refl refl refl h)
        (λ result dc.
          updated sent rs (nudged result now_ms (record rs { controller = dc })) refl refl refl h)
        (λ dc. updated sent rs _ refl refl refl h)
  step-IsBounded (snapshots now sent) rs h = broadcast-IsBounded _ _ (add_to_ring-IsBounded _ rs h)
  step-IsBounded (heartbeats user media wall t2 now t3) rs h = elsewhere rs _ refl refl refl h
  step-IsBounded (commands user kind p token now_ms now sent) rs h =
      command_cases IsBounded user kind p token now_ms now sent rs h
        (updated sent rs (commanded kind p now_ms now rs) refl refl refl h)
  step-IsBounded (authorized kind p token now_ms now sent) rs h =
      authorized_cases IsBounded kind p token now_ms now sent rs h
        (updated sent rs (commanded kind p now_ms now rs) refl refl refl h)
  step-IsBounded (adopts owner now sent) rs h =
      adopt_cases IsBounded owner now sent rs h (elsewhere rs (owned owner rs) refl refl refl h)
        (updated sent rs (hosted owner now rs) refl refl refl h)
        (updated sent rs (hosted owner now (owned owner rs)) refl refl refl h)
  step-IsBounded registers rs h = record { ring = h.ring; queues = (omega arith, h.queues) }
  step-IsBounded (unregisters ch) rs h = record {
    ring = h.ring;
    queues = All-select _ rs.subscribers h.queues;
  }
  step-IsBounded (receives ch) rs h = record {
    ring = h.ring;
    queues = All-receive ch rs.subscribers h.queues;
  }
  step-IsBounded starts rs h = elsewhere rs _ refl refl refl h
  step-IsBounded stops rs h = ground arith

  pub run-IsBounded : (es : List (Event F)) (rs : RoomSync F) → IsBounded rs → IsBounded (run es rs)
  unfolding run
  run-IsBounded [] rs h = h
  run-IsBounded (e ∷ es) rs h = run-IsBounded es (step e rs) (step-IsBounded e rs h)

  -- Over any history of a new room, its ring buffer is never longer than configured, and no
  -- subscriber's buffer is longer than its channel.
  pub memory-IsBounded :
      (cfg : SyncConfig F) (id : String) (initial : SyncState F) (es : List (Event F))
      → IsBounded (run es (new_room_sync cfg id initial))
  unfolding new_room_sync
  memory-IsBounded cfg id initial es =
      run-IsBounded es (new_room_sync cfg id initial) (record { ring = omega arith; queues = tt })
