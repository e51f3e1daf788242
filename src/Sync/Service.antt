-- ===== src/Sync/Service.antt =====
-- apps/sync-service/internal/app/service.go and handlers.go: the rooms of a process, and the RPCs.
-- What the database holds for a room, and what the Room Service answers about a permission, are
-- arguments; an error of either is `none`. The streaming loop of Subscribe is not modelled.
pub mod Rooms
pub mod Access
use vibe_sync.Base.{
  ℕ, Bool, true, false, ◌||◌, not, Option, none, some, String, str_eq, ℤ, pos, List, [], ◌∷◌, map,
  lookup, insert, if◌then◌else◌,
}
use vibe_sync.Sync.Float.{Float64, one_f}
use vibe_sync.Sync.State.{
  paused, SyncState, CommandKind, cmd_play, cmd_pause, cmd_seek, cmd_set_rate, cmd_load_media,
  cmd_next, cmd_previous, Payload,
}
use vibe_sync.Sync.Room.{SyncConfig, RoomSync}
use vibe_sync.Sync.Room.Migration.{adopt_owner_if_unset}
use vibe_sync.Sync.Room.Requests.{
  HeartbeatReply, CommandReply, Recovery, process_heartbeat, process_command_authorized, recover,
}
use vibe_sync.Sync.Room.Tick.{new_room_sync, start, shutdown}

-- The permissions that a command can need.
pub data RoomPermission : Type 0 where
  seek pause_play switch_queue : RoomPermission

pub data ApiError : Type 0 where
  cancelled missing_room_id missing_user_id command_denied permission_check_failed : ApiError

pub data Result {ℓ} (A : Type ℓ) : Type ℓ where
  ok : A → Result A
  err : ApiError → Result A

-- `commandPermission`: the second result is false for `none`.
unfoldable pub command_permission : CommandKind → Option RoomPermission
command_permission cmd_seek = some seek
command_permission cmd_play = some pause_play
command_permission cmd_pause = some pause_play
command_permission cmd_set_rate = some pause_play
command_permission cmd_load_media = some switch_queue
command_permission cmd_next = some switch_queue
command_permission cmd_previous = some switch_queue
command_permission _ = none

pub record RoomManager (F : Type 0) : Type 0 where
  pub cfg : SyncConfig F
  pub rooms : List (String × RoomSync F)

-- What other requests do in the gaps of a handler.
pub record Meanwhile (F : Type 0) : Type 0 where
  pub before_host : RoomManager F → RoomManager F
  pub before_owner : RoomManager F → RoomManager F
  pub before_run : RoomManager F → RoomManager F

unfoldable pub granted : (RoomPermission → Option Bool) → Option RoomPermission → Result (Unit {0})
granted has none = err command_denied
granted has (some perm) = elim (has perm) [
  | none ↦ err permission_check_failed
  | some true ↦ ok tt
  | some false ↦ err command_denied
]

-- With the host and the owner as they were read, each in a critical section of its own.
unfoldable pub authorize_command :
    String → String → String → CommandKind → (RoomPermission → Option Bool) → Result (Unit {0})
unfolding granted
authorize_command host owner user kind has =
    if str_eq user host || str_eq user owner then ok tt else granted has (command_permission kind)

module _ {F : Type 0} ⦃fl : Float64 F⦄ where
  -- The state of a room that nobody persisted. Go leaves the other fields at zero.
  unfoldable pub fresh_state : String → String → SyncState F
  fresh_state id owner = record {
    room_id = id;
    media_id = "";
    status = paused;
    media_time_ms = pos 0;
    wall_time_ms = pos 0;
    playback_rate = one_f;
    epoch = 0;
    host_id = owner;
    fencing_token = 0;
    epoch_started = pos 0;
    owner_id = owner;
  }

  abbrev pub or_fresh : String → Option (SyncState F) → SyncState F
  or_fresh id none = fresh_state id ""
  or_fresh id (some s) = s

  unfoldable pub get_or_create :
      String → Option (SyncState F) → RoomManager F → RoomSync F × RoomManager F
  get_or_create id persisted m =
      let made = start (new_room_sync m.cfg id (or_fresh id persisted)) in
      elim (lookup id m.rooms) [
        | some rs ↦ (rs, m)
        | none ↦ (made, record m { rooms = insert id made m.rooms })
      ]

  -- `Init`; `now` and `sent` are the readings of the clock in AdoptOwnerIfUnset.
  unfoldable pub init : String → String → ℤ → ℤ → RoomManager F → RoomManager F
  init id owner now sent m =
      let made = start (new_room_sync m.cfg id (fresh_state id owner)) in
      elim (lookup id m.rooms) [
        | some rs ↦ record m {
          rooms = insert id (adopt_owner_if_unset owner now sent rs).1 m.rooms;
        }
        | none ↦ record m { rooms = insert id made m.rooms }
      ]

  shutdown_all : RoomManager F → RoomManager F
  shutdown_all m = record m { rooms = map (λ r. (r.0, shutdown r.1)) m.rooms }

  -- The handler of `room.created.v1`, after a payload that could be read.
  unfoldable pub handle_room_created : String → String → ℤ → ℤ → RoomManager F → RoomManager F
  handle_room_created id owner now sent m =
      if str_eq id "" || str_eq owner "" then m else init id owner now sent m

  -- The room behind the pointer that GetOrCreate gave; no room is ever taken out of the map.
  unfoldable pub room_now : String → RoomSync F → RoomManager F → RoomSync F
  room_now id room m = elim (lookup id m.rooms) [ none ↦ room | some rs ↦ rs ]

  store : String → RoomSync F → RoomManager F → RoomManager F
  store id rs m = record m { rooms = insert id rs m.rooms }

  -- The part of the handler behind the authorization, and the whole handler. `done` tells that the
  -- request was cancelled. `others` is what the rest of the process does between the critical
  -- sections of the handler: before the host is read, before the owner is read, and before the
  -- command runs, with the question to the Room Service in this last gap.
  unfoldable pub perform :
      String
      → CommandKind
      → Payload F
      → ℕ
      → ℤ
      → ℤ
      → ℤ
      → RoomSync F
      → RoomManager F
      → Result (Unit {0})
      → Result CommandReply × RoomManager F
  unfolding store
  perform id kind p token now_ms now sent room m (err e) = (err e, m)
  perform id kind p token now_ms now sent room m (ok _) =
      let (reply, after) = process_command_authorized kind p token now_ms now sent room in
      (ok reply, store id after m)

  unfoldable pub command :
      Bool
      → String
      → String
      → CommandKind
      → Payload F
      → ℕ
      → Option (SyncState F)
      → (RoomPermission → Option Bool)
      → ℤ
      → ℤ
      → ℤ
      → Meanwhile F
      → RoomManager F
      → Result CommandReply × RoomManager F
  unfolding perform
  command done id user kind p token persisted has now_ms now sent others m =
      let (room, made) = get_or_create id persisted m in
      let m1 = others.before_host made in
      let seen = room_now id room m1 in
      let m2 = others.before_owner m1 in
      let seen_again = room_now id seen m2 in
      let m3 = others.before_run m2 in
      let allowed = authorize_command seen.state.host_id seen_again.state.owner_id user kind has in
      if done
      then (err cancelled, m)
      else if str_eq id ""
      then (err missing_room_id, m)
      else if str_eq user ""
      then (err missing_user_id, m)
      else perform id kind p token now_ms now sent (room_now id seen_again m3) m3 allowed

  unfoldable pub heartbeat :
      Bool
      → String
      → String
      → ℤ
      → ℤ
      → Option (SyncState F)
      → ℤ
      → ℤ
      → ℤ
      → RoomManager F
      → Result HeartbeatReply × RoomManager F
  unfolding store
  heartbeat done id user media wall persisted t2 now t3 m =
      let (room, m') = get_or_create id persisted m in
      let (reply, after) = process_heartbeat user media wall t2 now t3 room in
      if done
      then (err cancelled, m)
      else if str_eq id ""
      then (err missing_room_id, m)
      else if str_eq user ""
      then (err missing_user_id, m)
      else (ok reply, store id after m')

  unfoldable pub recover_room :
      Bool
      → String
      → ℕ
      → Option (SyncState F)
      → ℤ
      → RoomManager F
      → Result (Recovery F) × RoomManager F
  recover_room done id since persisted now m =
      let (room, m') = get_or_create id persisted m in
      if done
      then (err cancelled, m)
      else if str_eq id ""
      then (err missing_room_id, m)
      else (ok (recover since now room), m')
