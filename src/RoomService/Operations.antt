-- ===== src/RoomService/Operations.antt =====
-- The operations of the service on its tables, and that each of them, refused or not, leaves the
-- tables consistent.
use vibe_sync.RoomService.Tables.{Db}
use vibe_sync.RoomService.Lifecycle.{create_room, Subject, join_room, change_room, delete_room}
use vibe_sync.RoomService.Model.{Name, RoomVisibility}
use vibe_sync.Base.{ℕ, Option, String, ℤ, List, [], ◌∷◌}
use vibe_sync.RoomService.Membership.{
  leave_room, kick_member, update_member_role, grant_permissions,
}
use vibe_sync.RoomService.Consistent.{IsConsistent}
use vibe_sync.RoomService.MemberRequests.{
  leave_room-IsConsistent, kick_member-IsConsistent, update_member_role-IsConsistent,
  grant_permissions-IsConsistent, join_room-IsConsistent,
}
use vibe_sync.RoomService.RoomRequests.{
  delete_room-IsConsistent, change_room-IsConsistent, create_room-IsConsistent,
}

-- A request that changes the tables, with the draws of the service: the time, ids and codes.
pub data Operation : Type 0 where
  creates :
      Subject
      → ℤ
      → String
      → String
      → Name
      → Name
      → RoomVisibility
      → Option ℤ
      → (Name → Name)
      → Operation
  joins : Subject → ℤ → String → String → Operation
  changes :
      Subject
      → ℤ
      → String
      → Option Name
      → Option Name
      → Option RoomVisibility
      → Option ℤ
      → (Name → Name)
      → Operation
  deletes : Subject → ℤ → String → Operation
  leaves : String → String → Operation
  kicks : String → String → String → Operation
  roles : String → String → String → ℤ → Operation
  grants : String → String → String → List ℕ → Operation

unfoldable pub perform : Operation → Db → Db
perform (creates s now id code name description visibility max slug_of) db =
    (create_room s now id code name description visibility max slug_of db).1
perform (joins s now room code) db = (join_room s now room code db).1
perform (changes s now id name description visibility max slug_of) db =
    (change_room s now id name description visibility max slug_of db).1
perform (deletes s now id) db = (delete_room s now id db).1
perform (leaves user room) db = (leave_room user room db).1
perform (kicks caller room target) db = (kick_member caller room target db).1
perform (roles caller room target role) db = (update_member_role caller room target role db).1
perform (grants caller room target wanted) db = (grant_permissions caller room target wanted db).1

unfoldable pub perform_all : List Operation → Db → Db
perform_all [] db = db
perform_all (o ∷ os) db = perform_all os (perform o db)

-- No operation, whether it succeeds or fails, breaks the consistency of the tables: the count of a
-- room stays the number of its members, no member has two rows, and no member is without a room
-- and no grant without a member.
pub perform-IsConsistent : (o : Operation) (db : Db) → IsConsistent db → IsConsistent (perform o db)
unfolding perform
perform-IsConsistent (creates s now id code name description visibility max slug_of) db h =
    create_room-IsConsistent s now id code name description visibility max slug_of db h
perform-IsConsistent (joins s now room code) db h = join_room-IsConsistent s now room code db h
perform-IsConsistent (changes s now id name description visibility max slug_of) db h =
    change_room-IsConsistent s now id name description visibility max slug_of db h
perform-IsConsistent (deletes s now id) db h = delete_room-IsConsistent s now id db h
perform-IsConsistent (leaves user room) db h = leave_room-IsConsistent user room db h
perform-IsConsistent (kicks caller room target) db h =
    kick_member-IsConsistent caller room target db h
perform-IsConsistent (roles caller room target role) db h =
    update_member_role-IsConsistent caller room target role db h
perform-IsConsistent (grants caller room target wanted) db h =
    grant_permissions-IsConsistent caller room target wanted db h

perform_all-keeps :
    (os : List Operation) (db : Db) → IsConsistent db → IsConsistent (perform_all os db)
unfolding perform_all
perform_all-keeps [] db h = h
perform_all-keeps (o ∷ os) db h = perform_all-keeps os (perform o db) (perform-IsConsistent o db h)

abbrev pub empty_tables : Db
empty_tables = record { rooms = []; members = []; grants = []; invites = []; outbox = [] }

-- From empty tables, every sequence of operations, each run to its end before the next one
-- begins, leads to consistent tables.
pub perform_all-IsConsistent : (os : List Operation) → IsConsistent (perform_all os empty_tables)
perform_all-IsConsistent os =
    perform_all-keeps os empty_tables
      (record { counted = tt; keyed = tt; housed = tt; granted = tt })
