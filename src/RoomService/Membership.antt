-- ===== src/RoomService/Membership.antt =====
-- apps/room-service/internal/app: membership.go and permissions.go, on the members of a room.
use vibe_sync.Base.{ℕ, Bool, true, false, not, Option, none, some, String, str_eq, ℤ, negsuc, List}
use vibe_sync.RoomService.Model.{
  Member, Permissions, can_kick, can_promote, permissions_from_proto, to_proto,
}
use vibe_sync.RoomService.Tables.{
  Db, get_member, delete_member, delete_grants, add_to_count, update_role, set_grant, get_grant,
}
use vibe_sync.RoomService.Transaction.{
  permission_denied, not_found, owner_cannot_leave, grant_self, Result, ok, Tx, ◌>>=◌, ◌>>◌, pure,
  require, exec, in_tx,
}
use vibe_sync.RoomService.Lifecycle.{find_room, find_member}

-- A membership ends, and its grants with it.
unfoldable pub remove : String → String → Db → Db
remove room user db = record db {
  members = delete_member room user db.members;
  grants = delete_grants room user db.grants;
  rooms = add_to_count room (negsuc 0) db.rooms;
}

abbrev pub remove_found : String → String → Option Member → Db → Db
remove_found room user none db = db
remove_found room user (some m) db = remove room user db

-- The answer is the `left` of the response.
unfoldable pub leave_body : String → String → Tx Bool
leave_body user room = do
  r ← find_room room
  require (not (str_eq r.owner_id user)) owner_cannot_leave
  exec (λ db. remove_found room user (get_member room user db.members) db)
  pure false

unfoldable pub leave_room : String → String → Db → Result Bool × Db
leave_room user room db = in_tx (leave_body user room) db

unfoldable pub kick_body : String → String → String → Tx Bool
kick_body caller room target = do
  by ← find_member permission_denied room caller
  t ← find_member not_found room target
  require (can_kick by.role t.role) permission_denied
  exec (remove room target)
  pure true

unfoldable pub kick_member : String → String → String → Db → Result Bool × Db
kick_member caller room target db = in_tx (kick_body caller room target) db

unfoldable pub promote_body : String → String → String → ℤ → Tx Member
promote_body caller room target role = do
  by ← find_member permission_denied room caller
  require (can_promote by.role role) permission_denied
  t ← find_member not_found room target
  exec (λ db. record db { members = update_role room target role db.members })
  pure (record t { role = role })

unfoldable pub update_member_role : String → String → String → ℤ → Db → Result Member × Db
update_member_role caller room target role db = in_tx (promote_body caller room target role) db

abbrev pub granted_row : String → String → Permissions → Db → Db
granted_row room user perms db = record db {
  grants = set_grant (record { room_id = room; user_id = user; permissions = perms }) db.grants;
}

unfoldable pub grant_body : String → String → String → Permissions → Tx (List ℕ)
grant_body caller room target perms = do
  r ← find_room room
  require (str_eq r.owner_id caller) permission_denied
  require (not (str_eq target caller)) grant_self
  m ← find_member not_found room target
  exec (granted_row room target perms)
  pure (to_proto perms)

unfoldable pub grant_permissions : String → String → String → List ℕ → Db → Result (List ℕ) × Db
grant_permissions caller room target wanted db =
    in_tx (grant_body caller room target (permissions_from_proto wanted 0)) db

unfoldable pub get_member_permissions : String → String → Db → Result (List ℕ × Bool) × Db
get_member_permissions room user = in_tx (do
  r ← find_room room
  (λ db. (ok (to_proto (get_grant room user db.grants), str_eq r.owner_id user), db)))
