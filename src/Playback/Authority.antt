-- ===== src/Playback/Authority.antt =====
-- What the sync service tells of a room, and how it grows over the room's history
-- (apps/sync-service/internal/app/room_sync.go).
use vibe_sync.Playback.Service.{status_number}
use vibe_sync.Base.{
  ℕ, ◌+◌, ◌*◌, ◌≤◌, ◌<◌, ◌≡◌, refl, ap, ◌∙◌, ◌⊎◌, inl, inr, String, ℤ, List, [], ◌∷◌, length, arith,
  inc64, uint64_mod,
}
use vibe_sync.Sync.Float.{Float64}
use vibe_sync.Sync.State.{SyncState, CommandKind, Payload, apply_command}
use vibe_sync.Sync.State.Commands.{apply_command_frame}
use vibe_sync.Sync.Room.{RoomSync, broadcast, broadcast_update, broadcast_snapshot, add_to_ring}
use vibe_sync.Sync.Room.Migration.{migrate_host, orphaned, check_host_migration, owned, hosted}
use vibe_sync.Sync.Room.Requests.{
  commanded, process_heartbeat, register_subscriber, unregister_subscriber, receive,
}
use vibe_sync.Sync.Room.Tick.{nudged, start, shutdown}
use vibe_sync.Sync.Room.Steps.{
  Event, ticks, snapshots, heartbeats, commands, authorized, adopts, registers, unregisters,
  receives, starts, stops, step, run,
}
use vibe_sync.Sync.Room.Cases.{
  check_cases, tick_cases, adopt_cases, command_cases, authorized_cases,
}
use vibe_sync.Playback.Room.{SyncCommand}

-- What a mirror makes of the state.
abbrev pub sync_command : {F : Type 0} → SyncState F → SyncCommand F
sync_command s = record {
  media_id = s.media_id;
  status = status_number s.status;
  media_time_ms = s.media_time_ms;
  wall_time_ms = s.wall_time_ms;
  playback_rate = s.playback_rate;
  epoch = s.epoch;
  host_id = s.host_id;
  fencing_token = s.fencing_token;
}

module _ {F : Type 0} where
  -- `t` shows what `s` shows, or has a newer version; and at most `k` versions lie between.
  pub record Ahead (s : SyncState F) (k : ℕ) (t : SyncState F) : Type 0 where
    pub grown :
        (sync_command t ≡ sync_command s)
        ⊎ ((s.epoch < t.epoch) × (s.fencing_token ≤ t.fencing_token))
    pub soon : t.epoch ≤ s.epoch + k
    pub near : t.fencing_token ≤ s.fencing_token + k

  abbrev pub Fits : SyncState F → ℕ → Type 0
  Fits s k = (s.epoch + k < uint64_mod) × (s.fencing_token + k < uint64_mod)

  Ahead-refl : (s : SyncState F) → Ahead s 0 s
  Ahead-refl s = record { grown = inl refl; soon = omega arith; near = omega arith }

  widen : (s : SyncState F) (k k' : ℕ) (t : SyncState F) → k ≤ k' → Ahead s k t → Ahead s k' t
  widen s k k' t l h = record {
    grown = h.grown;
    soon = omega (arith, h.soon);
    near = omega (arith, h.near);
  }

  unmoved :
      (s : SyncState F) (k : ℕ) (t u : SyncState F)
      → sync_command u ≡ sync_command t
      → Ahead s k t
      → Ahead s k u
  unmoved s k t u e h =
      let epoch = ap (λ (c : SyncCommand F). c.epoch) e in
      let token = ap (λ (c : SyncCommand F). c.fencing_token) e in
      record {
        grown = elim h.grown [
          | inl same ↦ inl (e ∙ same)
          | inr (up, hold) ↦ inr (omega arith, omega arith)
        ];
        soon = omega (arith, h.soon);
        near = omega (arith, h.near);
      }

  bumped :
      (s : SyncState F) (k : ℕ) (t u : SyncState F)
      → Fits s (k + 1)
      → u.epoch ≡ inc64 t.epoch
      → (u.fencing_token ≡ t.fencing_token) ⊎ (u.fencing_token ≡ inc64 t.fencing_token)
      → Ahead s k t
      → Ahead s (k + 1) u
  bumped s k t u fits e f h =
      let next : u.epoch ≡ t.epoch + 1 = omega (arith, fits.0, h.soon) in
      let token : (t.fencing_token ≤ u.fencing_token) × (u.fencing_token ≤ t.fencing_token + 1) =
        ground (arith, fits.1, h.near) in
      let base : (s.epoch ≤ t.epoch) × (s.fencing_token ≤ t.fencing_token) = elim h.grown [
        | inl same ↦ (
          omega (arith, ap (λ (c : SyncCommand F). c.epoch) same),
          omega (arith, ap (λ (c : SyncCommand F). c.fencing_token) same),
        )
        | inr (up, hold) ↦ (omega arith, hold)
      ] in
      record {
        grown = inr (omega (arith, base.0), omega (arith, base.1, token.0));
        soon = omega (arith, h.soon);
        near = omega (arith, h.near, token.1);
      }

  Ahead-trans : (s t u : SyncState F) (k l : ℕ) → Ahead s k t → Ahead t l u → Ahead s (k + l) u
  Ahead-trans s t u k l h g = record {
    grown = elim h.grown [
      | inl same ↦ elim g.grown [
        | inl also ↦ inl (also ∙ same)
        | inr (up, hold) ↦ inr (
          omega (arith, ap (λ (c : SyncCommand F). c.epoch) same),
          omega (arith, ap (λ (c : SyncCommand F). c.fencing_token) same),
        )
      ]
      | inr (up, hold) ↦ elim g.grown [
        | inl also ↦ inr (
          omega (arith, ap (λ (c : SyncCommand F). c.epoch) also),
          omega (arith, ap (λ (c : SyncCommand F). c.fencing_token) also),
        )
        | inr (up', hold') ↦ inr (omega arith, omega arith)
      ]
    ];
    soon = omega (arith, h.soon, g.soon);
    near = omega (arith, h.near, g.near);
  }

module _ {F : Type 0} ⦃fl : Float64 F⦄ where
  check-Ahead :
      (s : SyncState F) (k : ℕ) (now sent : ℤ) (rs : RoomSync F)
      → Fits s (k + 1)
      → Ahead s k rs.state
      → Ahead s (k + 1) (check_host_migration now sent rs).state
  unfolding migrate_host orphaned broadcast broadcast_update add_to_ring
  check-Ahead s k now sent rs fits h =
      check_cases (λ r. Ahead s (k + 1) r.state) now sent rs
        (widen s k (k + 1) rs.state (omega arith) h)
        (λ id. bumped s k rs.state (migrate_host id now rs).state fits refl (inr refl) h)
        (bumped s k rs.state (orphaned rs).state fits refl (inl refl) h)

  commanded-Ahead :
      (kind : CommandKind) (p : Payload F) (now_ms now : ℤ) (s : SyncState F)
      → Fits s 2
      → Ahead s 2 (apply_command kind p now_ms now s)
  commanded-Ahead kind p now_ms now s fits =
      let (up, host, token', owner, room) = apply_command_frame kind p now_ms now s in
      let t = apply_command kind p now_ms now s in
      widen s 1 2 t (omega arith)
        (bumped s 0 s t (omega arith, omega arith) up (inl token') (Ahead-refl s))

  hosted-Ahead :
      (owner : String) (now : ℤ) (rs qs : RoomSync F)
      → Fits rs.state 2
      → qs.state.epoch ≡ rs.state.epoch
      → qs.state.fencing_token ≡ rs.state.fencing_token
      → Ahead rs.state 2 (hosted owner now qs).state
  unfolding hosted
  hosted-Ahead owner now rs qs fits e f =
      let s = rs.state in
      let t = (hosted owner now qs).state in
      widen s 1 2 t (omega arith)
        (bumped s 0 s t (omega arith, omega arith) (ap inc64 e) (inl f) (Ahead-refl s))

  -- An event leaves what a room shows as it is, or gives it a newer version.
  pub step-Ahead :
      (e : Event F) (rs : RoomSync F) → Fits rs.state 2 → Ahead rs.state 2 (step e rs).state
  unfolding step nudged owned hosted commanded broadcast broadcast_snapshot broadcast_update
      add_to_ring process_heartbeat register_subscriber unregister_subscriber receive start shutdown
  step-Ahead (ticks now now_ms sent) rs fits =
      let s = rs.state in
      tick_cases (λ r. Ahead s 1 r.state) (λ r. Ahead s 2 r.state) now now_ms sent rs
        (λ r. check-Ahead s 1 now sent r fits) (widen s 0 1 s (omega arith) (Ahead-refl s))
        (λ dc. widen s 0 1 s (omega arith) (Ahead-refl s))
        (λ result dc.
          bumped s 0 s (nudged result now_ms (record rs { controller = dc })).state
            (omega arith, omega arith) refl (inl refl) (Ahead-refl s))
        (λ dc. widen s 0 2 s (omega arith) (Ahead-refl s))
  step-Ahead (commands user kind p token now_ms now sent) rs fits =
      command_cases (λ r. Ahead rs.state 2 r.state) user kind p token now_ms now sent rs
        (widen rs.state 0 2 rs.state (omega arith) (Ahead-refl rs.state))
        (commanded-Ahead kind p now_ms now rs.state fits)
  step-Ahead (authorized kind p token now_ms now sent) rs fits =
      authorized_cases (λ r. Ahead rs.state 2 r.state) kind p token now_ms now sent rs
        (widen rs.state 0 2 rs.state (omega arith) (Ahead-refl rs.state))
        (commanded-Ahead kind p now_ms now rs.state fits)
  step-Ahead (adopts owner now sent) rs fits =
      let s = rs.state in
      let own = owned owner rs in
      adopt_cases (λ r. Ahead s 2 r.state) owner now sent rs
        (widen s 0 2 s (omega arith) (Ahead-refl s))
        (widen s 0 2 own.state (omega arith) (unmoved s 0 s own.state refl (Ahead-refl s)))
        (hosted-Ahead owner now rs rs fits refl refl) (hosted-Ahead owner now rs own fits refl refl)
  step-Ahead (snapshots now sent) rs fits = widen _ 0 2 _ (omega arith) (Ahead-refl rs.state)
  step-Ahead (heartbeats user media wall t2 now t3) rs fits =
      widen _ 0 2 _ (omega arith) (Ahead-refl rs.state)
  step-Ahead registers rs fits = widen _ 0 2 _ (omega arith) (Ahead-refl rs.state)
  step-Ahead (unregisters ch) rs fits = widen _ 0 2 _ (omega arith) (Ahead-refl rs.state)
  step-Ahead (receives ch) rs fits = widen _ 0 2 _ (omega arith) (Ahead-refl rs.state)
  step-Ahead starts rs fits = widen _ 0 2 _ (omega arith) (Ahead-refl rs.state)
  step-Ahead stops rs fits = widen _ 0 2 _ (omega arith) (ground (arith, Ahead-refl rs.state))

  -- So does a whole history, until a counter may wrap around.
  pub run-Ahead :
      (es : List (Event F)) (rs : RoomSync F)
      → Fits rs.state (2 * length es)
      → Ahead rs.state (2 * length es) (run es rs).state
  unfolding run
  run-Ahead [] rs fits = Ahead-refl rs.state
  run-Ahead (e ∷ es) rs fits =
      let one = step-Ahead e rs (omega arith, omega arith) in
      let next = step e rs in
      let rest = run-Ahead es next (omega (arith, one.soon), omega (arith, one.near)) in
      widen rs.state (2 + 2 * length es) (2 * length (e ∷ es)) (run es next).state (omega arith)
        (Ahead-trans rs.state next.state (run es next).state 2 (2 * length es) one rest)
