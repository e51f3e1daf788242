-- ===== src/RoomService/Lifecycle.antt =====
-- apps/room-service/internal/app/lifecycle.go: CreateRoom, JoinRoom, UpdateRoom and DeleteRoom.
-- The new ids, the invite code, the slug and the time are arguments.
use vibe_sync.Base.{
  ◌+ℤ◌, Bool, true, false, not, ◌&&◌, ◌||◌, Option, none, some, String, str_eq, ℤ, pos, ltb_ℤ, [],
  ◌∷◌, ◌++◌, if◌then◌else◌,
}
use vibe_sync.RoomService.Model.{
  Name, RoomVisibility, public, unlisted, private, member, owner, Room, Member, Checked, fine,
  refused, new_room, is_full, requires_invite, apply_update,
}
use vibe_sync.RoomService.Tables.{
  Db, RoomEvent, room_created, room_joined, room_deleted, get_room, get_member, taken, slug_taken,
  upsert_member, add_to_count, update_room, delete_room_rows, get_invite,
}
use vibe_sync.RoomService.Transaction.{
  RoomError, permission_denied, missing_room_id, not_found, room_full, create_failed, invalid_room,
  Result, ok, err, Tx, ◌>>=◌, ◌>>◌, require, found_or, exec, in_tx,
}

-- The caller: an id, and the number of the system role.
pub record Subject : Type 0 where
  pub user_id : String
  pub system_role : ℤ

abbrev user_role : ℤ
user_role = pos 2

abbrev administrator : ℤ
administrator = pos 4

abbrev pub find_room : String → Tx Room
find_room id db = found_or not_found (get_room id db.rooms) db

abbrev pub find_member : RoomError → String → String → Tx Member
find_member e room user db = found_or e (get_member room user db.members) db

unfoldable pub insert_room : Room → Tx (Unit {0})
insert_room r db =
    if taken r db.rooms
    then (err create_failed, db)
    else (ok tt, record db { rooms = db.rooms ++ r ∷ [] })

unfoldable pub join : Member → Db → Db
join m db = record db {
  members = upsert_member m db.members;
  rooms = add_to_count m.room_id (pos 1) db.rooms;
}

abbrev pub needs_code : Room → Bool
needs_code r = elim r.visibility [
  | RoomVisibility.unspecified ↦ false
  | public ↦ false
  | unlisted ↦ true
  | private ↦ true
]

unfoldable pub invited : String → Room → Db → Db
invited code r db =
    if needs_code r
    then record db {
      invites = db.invites ++ record { code = code; room_id = r.id; expires_at = none } ∷ [];
    }
    else db

abbrev pub append_event : RoomEvent → Db → Db
append_event e db = record db { outbox = db.outbox ++ e ∷ [] }

unfoldable pub create_rows : Room → ℤ → String → Tx (Unit {0})
create_rows r now code = do
  insert_room r
  exec (join (record { room_id = r.id; user_id = r.owner_id; role = owner; joined_at = now }))
  exec (invited code r)
  exec (append_event (room_created r.id r.slug r.name r.owner_id r.visibility))

abbrev pub wrapped : Room → Result (Unit {0}) × Db → Result Room × Db
wrapped r (ok _, db) = (ok (record r { member_count = pos 1 }), db)
wrapped r (err e, db) = (err create_failed, db)

unfoldable pub create_checked : Checked → ℤ → String → Db → Result Room × Db
create_checked (refused e) now code db = (err (invalid_room e), db)
create_checked (fine r) now code db = wrapped r (in_tx (create_rows r now code) db)

unfoldable pub create_room :
    Subject
    → ℤ
    → String
    → String
    → Name
    → Name
    → RoomVisibility
    → Option ℤ
    → (Name → Name)
    → Db
    → Result Room × Db
create_room s now id code name description visibility max_members slug_of db =
    if ltb_ℤ s.system_role user_role
    then (err permission_denied, db)
    else create_checked (new_room now id s.user_id name description visibility max_members slug_of)
        now code db

-- A private room wants the code of an invite of its own.
abbrev opens : String → Option String → Bool
opens room none = false
opens room (some other) = str_eq other room

unfoldable pub admitted : ℤ → String → String → Room → Db → Bool
admitted now code room r db =
    not (requires_invite r) || (not (str_eq code "") && opens room (get_invite now code db.invites))

unfoldable pub join_missing : String → String → ℤ → Room → Option Member → Tx (Room × ℤ)
join_missing room user now r (some existing) db = (ok (r, existing.role), db)
join_missing room user now r none db = (
  ok (record r { member_count = r.member_count +ℤ pos 1 }, member),
  append_event (room_joined room user member now)
      (join (record { room_id = room; user_id = user; role = member; joined_at = now }) db),
)

unfoldable pub join_body : String → String → ℤ → String → Tx (Room × ℤ)
join_body room user now code = do
  r ← find_room room
  (λ db. require (admitted now code room r db) permission_denied db)
  require (not (is_full r)) room_full
  (λ db. join_missing room user now r (get_member room user db.members) db)

unfoldable pub join_room : Subject → ℤ → String → String → Db → Result (Room × ℤ) × Db
join_room s now room code db =
    if ltb_ℤ s.system_role user_role
    then (err permission_denied, db)
    else if str_eq room ""
    then (err missing_room_id, db)
    else in_tx (join_body room s.user_id now code) db

-- Administrators need no role in the room.
unfoldable pub require_room_role : String → Subject → ℤ → Tx (Unit {0})
require_room_role room s min_role db =
    if not (ltb_ℤ s.system_role administrator)
    then (ok tt, db)
    else (do
      m ← find_member permission_denied room s.user_id
      require (not (ltb_ℤ m.role min_role)) permission_denied)
        db

unfoldable pub write_room : Room → Tx Room
write_room r db =
    if slug_taken r db.rooms
    then (err create_failed, db)
    else (ok r, record db { rooms = update_room r db.rooms })

unfoldable pub change_room :
    Subject
    → ℤ
    → String
    → Option Name
    → Option Name
    → Option RoomVisibility
    → Option ℤ
    → (Name → Name)
    → Db
    → Result Room × Db
change_room s now id name description visibility max_members slug_of = in_tx (do
  r ← find_room id
  require_room_role id s owner
  write_room (apply_update now name description visibility max_members slug_of r))

unfoldable pub delete_room : Subject → ℤ → String → Db → Result (Unit {0}) × Db
delete_room s now id = in_tx (do
  require_room_role id s owner
  exec (delete_room_rows id)
  exec (append_event (room_deleted id now)))
