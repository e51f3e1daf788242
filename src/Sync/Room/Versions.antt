-- ===== src/Sync/Room/Versions.antt =====
-- Epochs: they never fall, and the ring buffer holds its frames in their order.
use vibe_sync.Sync.State.Commands.{apply_command_frame}
use vibe_sync.Sync.State.{CommandKind, Payload}
use vibe_sync.Sync.Room.Migration.{migrate_host, orphaned, check_host_migration, owned, hosted}
use vibe_sync.Sync.Room.Requests.{
  commanded, process_heartbeat, register_subscriber, unregister_subscriber, receive,
}
use vibe_sync.Sync.Room.Tick.{nudged, start, shutdown}
use vibe_sync.Sync.Room.Steps.{
  Event, ticks, snapshots, heartbeats, commands, authorized, adopts, registers, unregisters,
  receives, starts, stops, step, run,
}
use vibe_sync.Sync.Room.Cases.{
  check_cases, tick_cases, adopt_cases, command_cases, authorized_cases,
}
use vibe_sync.Sync.Room.{
  RoomSync, Frame, FrameEntry, broadcast, broadcast_snapshot, broadcast_update, add_to_ring, trim,
}
use vibe_sync.Sync.Float.{Float64}
use vibe_sync.Base.{
  ℕ, zero, suc, ◌+◌, ◌-◌, ◌*◌, ◌≤◌, ◌<◌, ◌≡◌, refl, List, [], ◌∷◌, ◌++◌, length, drop, true, arith,
  String, ℤ, inc64, uint64_mod,
}

module _ {F : Type 0} where
  -- The epochs rise from `lo` along the buffer, and stay at or below `hi`.
  abbrev pub Rising : ℕ → List (FrameEntry F) → ℕ → Type 0
  Rising lo [] hi = lo ≤ hi
  Rising lo (e ∷ es) hi = (lo ≤ e.epoch) × Rising e.epoch es hi

  pub Rising-le : (lo : ℕ) (es : List (FrameEntry F)) (hi : ℕ) → Rising lo es hi → lo ≤ hi
  Rising-le lo [] hi h = h
  Rising-le lo (e ∷ es) hi h = omega (arith, h.0, Rising-le e.epoch es hi h.1)

  pub Rising-weaken :
      (lo : ℕ) (es : List (FrameEntry F)) (hi lo' hi' : ℕ)
      → Rising lo es hi
      → lo' ≤ lo
      → hi ≤ hi'
      → Rising lo' es hi'
  Rising-weaken lo [] hi lo' hi' h l g = omega arith
  Rising-weaken lo (e ∷ es) hi lo' hi' h l g =
      (omega (arith, h.0), Rising-weaken e.epoch es hi e.epoch hi' h.1 (omega arith) g)

  Rising-snoc :
      (lo : ℕ) (es : List (FrameEntry F)) (x : FrameEntry F)
      → Rising lo es x.epoch
      → Rising lo (es ++ x ∷ []) x.epoch
  Rising-snoc lo [] x h = (h, omega arith)
  Rising-snoc lo (e ∷ es) x h = (h.0, Rising-snoc e.epoch es x h.1)

  pub Rising-drop :
      (n lo : ℕ) (es : List (FrameEntry F)) (hi : ℕ) → Rising lo es hi → Rising lo (drop n es) hi
  Rising-drop zero lo es hi h = h
  Rising-drop (suc n) lo [] hi h = h
  Rising-drop (suc n) lo (e ∷ es) hi h =
      Rising-drop n lo es hi (Rising-weaken e.epoch es hi lo hi h.1 h.0 (omega arith))

  abbrev pub IsOrdered : RoomSync F → Type 0
  IsOrdered rs = Rising 0 rs.ring_buffer rs.state.epoch

  -- The ring is in order, and at most `k` epochs have passed since `start_epoch`.
  pub record Since (start_epoch k : ℕ) (rs : RoomSync F) : Type 0 where
    pub ordered : IsOrdered rs
    pub later : start_epoch ≤ rs.state.epoch
    pub soon : rs.state.epoch ≤ start_epoch + k

  Rising-trim :
      (size : ℕ) (es : List (FrameEntry F)) (hi : ℕ) → Rising 0 es hi → Rising 0 (trim size es) hi
  unfolding trim
  Rising-trim size es hi h = ground (arith, Rising-drop (length es - size) 0 es hi h)

  add_to_ring-Since :
      (f : Frame F) (s k : ℕ) (rs : RoomSync F) → Since s k rs → Since s k (add_to_ring f rs)
  unfolding add_to_ring
  add_to_ring-Since f s k rs h = record {
    ordered =
        Rising-trim _ _ _
          (Rising-snoc 0 rs.ring_buffer (record { epoch = rs.state.epoch; frame = f }) h.ordered);
    later = h.later;
    soon = h.soon;
  }

  broadcast_update-Since :
      (now : ℤ) (s k : ℕ) (rs : RoomSync F) → Since s k rs → Since s k (broadcast_update now rs)
  unfolding broadcast_update
  broadcast_update-Since now s k rs h =
      let r = add_to_ring-Since _ s k rs h in
      record { ordered = r.ordered; later = r.later; soon = r.soon }

  -- One more epoch, with the same ring.
  bumped :
      (s k : ℕ) (rs qs : RoomSync F)
      → s + k + 1 < uint64_mod
      → qs.ring_buffer ≡ rs.ring_buffer
      → qs.state.epoch ≡ inc64 rs.state.epoch
      → Since s k rs
      → Since s (k + 1) qs
  bumped s k rs qs small r e h =
      let next : qs.state.epoch ≡ rs.state.epoch + 1 = omega (arith, e, h.soon) in
      record {
        ordered =
            rw (r, next)
              (Rising-weaken 0 rs.ring_buffer rs.state.epoch 0 (rs.state.epoch + 1) h.ordered
                (omega arith) (omega arith));
        later = omega (arith, next, h.later);
        soon = omega (arith, next, h.soon);
      }

  -- The same epoch and the same ring.
  unmoved :
      (s k : ℕ) (rs qs : RoomSync F)
      → qs.ring_buffer ≡ rs.ring_buffer
      → qs.state.epoch ≡ rs.state.epoch
      → Since s k rs
      → Since s k qs
  unmoved s k rs qs r e h = record {
    ordered = rw (r, e) h.ordered;
    later = omega (arith, e, h.later);
    soon = omega (arith, e, h.soon);
  }

  widen : (s k k' : ℕ) (rs : RoomSync F) → k ≤ k' → Since s k rs → Since s k' rs
  widen s k k' rs l h = record {
    ordered = h.ordered;
    later = h.later;
    soon = omega (arith, h.soon);
  }

module _ {F : Type 0} ⦃fl : Float64 F⦄ where
  migrate_host-Since :
      (s k : ℕ) (id : String) (now : ℤ) (rs : RoomSync F)
      → s + k + 1 < uint64_mod
      → Since s k rs
      → Since s (k + 1) (migrate_host id now rs)
  unfolding migrate_host broadcast
  migrate_host-Since s k id now rs small h =
      bumped s k rs (migrate_host id now rs) small refl refl h

  check-Since :
      (s k : ℕ) (now sent : ℤ) (rs : RoomSync F)
      → s + k + 1 < uint64_mod
      → Since s k rs
      → Since s (k + 1) (check_host_migration now sent rs)
  unfolding orphaned
  check-Since s k now sent rs small h =
      check_cases (Since s (k + 1)) now sent rs (widen s k (k + 1) rs (omega arith) h)
        (λ id. migrate_host-Since s k id now rs small h)
        (broadcast_update-Since sent s (k + 1) (orphaned rs)
          (bumped s k rs (orphaned rs) small refl refl h))

  commanded-Since :
      (s : ℕ) (kind : CommandKind) (p : Payload F) (now_ms now sent : ℤ) (rs : RoomSync F)
      → s + 2 < uint64_mod
      → Since s 0 rs
      → Since s 2 (broadcast_update sent (commanded kind p now_ms now rs))
  unfolding commanded
  commanded-Since s kind p now_ms now sent rs small h =
      let after : RoomSync F = commanded kind p now_ms now rs in
      broadcast_update-Since sent s 2 after (
        widen s 1 2 after (omega arith) (
          bumped s 0 rs after (omega arith) refl (apply_command_frame kind p now_ms now rs.state).0
            h))

  hosted-Since :
      (s : ℕ) (owner : String) (now sent : ℤ) (rs qs : RoomSync F)
      → s + 2 < uint64_mod
      → qs.ring_buffer ≡ rs.ring_buffer
      → qs.state.epoch ≡ rs.state.epoch
      → Since s 0 rs
      → Since s 2 (broadcast_update sent (hosted owner now qs))
  unfolding hosted
  hosted-Since s owner now sent rs qs small r e h =
      broadcast_update-Since sent s 2 (hosted owner now qs) (
        widen s 1 2 (hosted owner now qs) (omega arith)
          (bumped s 0 qs (hosted owner now qs) (omega arith) refl refl (unmoved s 0 rs qs r e h)))

  -- An event makes at most two new epochs, and keeps the ring buffer in the order of its epochs.
  pub step-Since :
      (s : ℕ) (e : Event F) (rs : RoomSync F)
      → s + 2 < uint64_mod
      → Since s 0 rs
      → Since s 2 (step e rs)
  unfolding step nudged owned broadcast broadcast_snapshot process_heartbeat register_subscriber
      unregister_subscriber receive start shutdown
  step-Since s (ticks now now_ms sent) rs small h =
      tick_cases (Since s 1) (Since s 2) now now_ms sent rs
        (λ r. check-Since s 1 now sent r (omega arith)) (widen s 0 1 rs (omega arith) h)
        (λ dc.
          widen s 0 1 (record rs { controller = dc }) (omega arith) (unmoved s 0 rs _ refl refl h))
        (λ result dc.
          broadcast_update-Since sent s 1 (nudged result now_ms (record rs { controller = dc })) (
            bumped s 0 rs (nudged result now_ms (record rs { controller = dc })) (omega arith) refl
              refl h))
        (λ dc. widen s 0 2 (broadcast_update sent (record rs { controller = dc })) (omega arith) (
          broadcast_update-Since sent s 0 (record rs { controller = dc })
            (unmoved s 0 rs _ refl refl h)))
  step-Since s (snapshots now sent) rs small h =
      let r = add_to_ring-Since _ s 0 rs h in
      widen s 0 2 _ (omega arith) (record { ordered = r.ordered; later = r.later; soon = r.soon })
  step-Since s (heartbeats user media wall t2 now t3) rs small h =
      widen s 0 2 _ (omega arith) (unmoved s 0 rs _ refl refl h)
  step-Since s (commands user kind p token now_ms now sent) rs small h =
      command_cases (Since s 2) user kind p token now_ms now sent rs
        (widen s 0 2 rs (omega arith) h) (commanded-Since s kind p now_ms now sent rs small h)
  step-Since s (authorized kind p token now_ms now sent) rs small h =
      authorized_cases (Since s 2) kind p token now_ms now sent rs (widen s 0 2 rs (omega arith) h)
        (commanded-Since s kind p now_ms now sent rs small h)
  step-Since s (adopts owner now sent) rs small h =
      adopt_cases (Since s 2) owner now sent rs (widen s 0 2 rs (omega arith) h)
        (widen s 0 2 (owned owner rs) (omega arith) (unmoved s 0 rs (owned owner rs) refl refl h))
        (hosted-Since s owner now sent rs rs small refl refl h)
        (hosted-Since s owner now sent rs (owned owner rs) small refl refl h)
  step-Since s registers rs small h = widen s 0 2 _ (omega arith) (unmoved s 0 rs _ refl refl h)
  step-Since s (unregisters ch) rs small h =
      widen s 0 2 _ (omega arith) (unmoved s 0 rs _ refl refl h)
  step-Since s (receives ch) rs small h = widen s 0 2 _ (omega arith) (unmoved s 0 rs _ refl refl h)
  step-Since s starts rs small h = widen s 0 2 _ (omega arith) (unmoved s 0 rs _ refl refl h)
  step-Since s stops rs small h =
      widen s 0 2 _ (omega arith)
        (ground (arith, unmoved s 0 rs (record rs { cancelled = true }) refl refl h))

  -- Until the epoch counter wraps around, epochs never fall over any history of a room, and the
  -- ring buffer stays in their order with no frame from the future.
  pub run_versions :
      (es : List (Event F)) (rs : RoomSync F)
      → IsOrdered rs
      → rs.state.epoch + 2 * length es < uint64_mod
      → IsOrdered (run es rs) × (rs.state.epoch ≤ (run es rs).state.epoch)
  unfolding run
  run_versions [] rs h small = (h, omega arith)
  run_versions (e ∷ es) rs h small =
      let one =
        step-Since rs.state.epoch e rs (omega arith)
          (record { ordered = h; later = omega arith; soon = omega arith }) in
      let rest = run_versions es (step e rs) one.ordered (omega (arith, one.soon)) in
      (rest.0, omega (arith, one.later, rest.1))
