-- ===== src/Sync/Service/Access.antt =====
-- Who may command a room: handlers.go.
use vibe_sync.Sync.Service.{Meanwhile, room_now}
use vibe_sync.Sync.Room.Fencing.{command_fencing}
use vibe_sync.Base.{◌↔◌, ◌≤◌}
use vibe_sync.Sync.State.{SyncState, CommandKind, Payload}
use vibe_sync.Sync.Room.Requests.{process_command_authorized, CommandReply}
use vibe_sync.Sync.Room.{RoomSync}
use vibe_sync.Sync.Float.{Float64}
use vibe_sync.Base.{
  ℕ, ◌≡◌, ◌≢◌, ◌⊎◌, inl, inr, refl, Bool, true, false, Bool-cases, Option, none, some, arith,
  String, str_eq, eq_iff, ℤ, lookup, lookup-insert_self,
}
use vibe_sync.Sync.Service.{
  RoomManager, get_or_create, granted, perform, Result, ok, err, RoomPermission, command_permission,
  authorize_command, command,
}

granted_lem :
    (has : RoomPermission → Option Bool) (need : Option RoomPermission)
    → granted has need ≡ ok tt
    → (perm : RoomPermission) × (need ≡ some perm) × (has perm ≡ some true)
unfolding granted
granted_lem has none h = cc
granted_lem has (some perm) h = (perm, refl, ground arith)

-- The caller is this host or this owner, or the Room Service grants what the command needs.
abbrev pub MayCommand :
    String → String → String → CommandKind → (RoomPermission → Option Bool) → Type 0
MayCommand host owner user kind has =
    (user ≡ host)
    ⊎ (user ≡ owner)
    ⊎ ((perm : RoomPermission) × (command_permission kind ≡ some perm) × (has perm ≡ some true))

allowed_only :
    (host owner user : String) (kind : CommandKind) (has : RoomPermission → Option Bool)
    → authorize_command host owner user kind has ≡ ok tt
    → MayCommand host owner user kind has
unfolding authorize_command
allowed_only host owner user kind has h = elim (Bool-cases (str_eq user host)) [
  | inl e ↦ inl ((eq_iff user host).0 e)
  | inr e ↦ elim (Bool-cases (str_eq user owner)) [
    | inl f ↦ inr (inl ((eq_iff user owner).0 f))
    | inr f ↦ inr (inr (granted_lem has (command_permission kind) (rw (e, f) at h)))
  ]
]

module _ {F : Type 0} ⦃fl : Float64 F⦄ where
  abbrev pub RunsOn :
      RoomSync F
      → String
      → CommandKind
      → Payload F
      → ℕ
      → ℤ
      → ℤ
      → ℤ
      → CommandReply
      → RoomManager F
      → Type 0
  RunsOn room id kind p token now_ms now sent reply m =
      let (answer, after) = process_command_authorized kind p token now_ms now sent room in
      (reply ≡ answer) × (lookup id m.rooms ≡ some after)

  perform-ok :
      (id : String) (kind : CommandKind) (p : Payload F) (token : ℕ) (now_ms now sent : ℤ)
      (room : RoomSync F) (m : RoomManager F) (allowed : Result (Unit {0})) (reply : CommandReply)
      → let r = perform id kind p token now_ms now sent room m allowed in
        r.0 ≡ ok reply → (allowed ≡ ok tt) × RunsOn room id kind p token now_ms now sent reply r.1
  unfolding perform
  perform-ok id kind p token now_ms now sent room m (err e) reply h = cc
  perform-ok id kind p token now_ms now sent room m (ok _) reply h =
      (refl, (cc, lookup-insert_self id _ m.rooms))

  -- The room when the host was read, when the owner was read, and when the command ran.
  abbrev pub rooms_seen :
      String
      → Option (SyncState F)
      → Meanwhile F
      → RoomManager F
      → RoomSync F × RoomSync F × RoomSync F
  rooms_seen id persisted others m =
      let (room, made) = get_or_create id persisted m in
      let m1 = others.before_host made in
      let seen = room_now id room m1 in
      let m2 = others.before_owner m1 in
      let seen_again = room_now id seen m2 in
      (seen, seen_again, room_now id seen_again (others.before_run m2))

  -- A command that is answered was sent by a named caller. Whatever other requests do between the
  -- critical sections, the caller was the host when the host was read, or the owner when the owner
  -- was read, or the Room Service grants the permission that the command needs. The command ran on
  -- the room as it was by then, which may have another host; the answer and the new room are those
  -- of that run, and it was accepted exactly if the token was no smaller than that room's.
  pub command-MayCommand :
      (id user : String) (kind : CommandKind) (p : Payload F) (token : ℕ)
      (persisted : Option (SyncState F)) (has : RoomPermission → Option Bool) (now_ms now sent : ℤ)
      (others : Meanwhile F) (m : RoomManager F) (reply : CommandReply)
      → let r = command false id user kind p token persisted has now_ms now sent others m in
        let (seen, seen_again, room) = rooms_seen id persisted others m in
        r.0 ≡ ok reply
        → (user ≢ "")
          × MayCommand seen.state.host_id seen_again.state.owner_id user kind has
          × RunsOn room id kind p token now_ms now sent reply r.1
          × ((reply.accepted ≡ true) ↔ (room.state.fencing_token ≤ token))
  unfolding command
  command-MayCommand id user kind p token persisted has now_ms now sent others m reply h =
      elim (Bool-cases (str_eq id "")) [
        | inl no_id ↦ absurd (ground arith)
        | inr named ↦ elim (Bool-cases (str_eq user "")) [
          | inl anonymous ↦ absurd (ground arith)
          | inr known ↦
              let (room, made) = get_or_create id persisted m in
              let (seen, seen_again, current) = rooms_seen id persisted others m in
              let m3 = others.before_run (others.before_owner (others.before_host made)) in
              let allowed =
                authorize_command seen.state.host_id seen_again.state.owner_id user kind has in
              let (yes_sir, ran) =
                perform-ok id kind p token now_ms now sent current m3 allowed reply
                  (rw (named, known) at h) in
              let fenced = (command_fencing user kind p token now_ms now sent current).1 in
              rw (named, known)
                (
                  λ nobody. ground (arith, eq_iff user ""),
                  allowed_only seen.state.host_id seen_again.state.owner_id user kind has yes_sir,
                  ran,
                  rw (ran.0) fenced,
                )
        ]
      ]
