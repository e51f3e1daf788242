-- ===== src/Examples/Members.antt =====
-- Examples on the rooms of the room service and their members.
use vibe_sync.RoomService.Model.{Room, Member, public, member, moderator, owner, can_kick}
use vibe_sync.Base.{
  ◌≡◌, ◌≢◌, ◌⊎◌, ◌&&◌, refl, true, false, some, String, str_eq, pos, ◌<ℤ◌, List, [], ◌∷◌,
}
use vibe_sync.RoomService.Tables.{Db, get_member}
use vibe_sync.RoomService.Transaction.{in_tx}
use vibe_sync.RoomService.Lifecycle.{Subject}
use vibe_sync.RoomService.Membership.{kick_member, kick_body, update_member_role}
use vibe_sync.RoomService.Rows.{has_member}
use vibe_sync.RoomService.Consistent.{IsConsistent}
use vibe_sync.RoomService.Operations.{
  Operation, creates, joins, kicks, perform_all, empty_tables, perform_all-IsConsistent,
}
use vibe_sync.RoomService.Authority.{kick_member-outcome, owner_demoted}
use vibe_sync.Examples.Data.{differ}

abbrev ann : Subject
ann = record { user_id = "ann"; system_role = pos 2 }

abbrev bob : Subject
bob = record { user_id = "bob"; system_role = pos 2 }

abbrev opening : Operation
opening = creates ann (pos 1) "r1" "code" (65 ∷ []) [] public (some (pos 2)) (λ n. n)

abbrev history : List Operation
history = opening ∷ joins bob (pos 2) "r1" "" ∷ kicks "ann" "r1" "bob" ∷ []

perform_all-IsConsistent_example : IsConsistent (perform_all history empty_tables)
perform_all-IsConsistent_example = perform_all-IsConsistent history

abbrev den : Room
den = record {
  id = "r1";
  slug = 100 ∷ [];
  name = 68 ∷ [];
  description = [];
  visibility = public;
  owner_id = "ann";
  max_members = pos 2;
  member_count = pos 2;
  created_at = pos 1;
  updated_at = pos 1;
}

abbrev ann_row : Member
ann_row = record { room_id = "r1"; user_id = "ann"; role = owner; joined_at = pos 1 }

abbrev bob_row : Member
bob_row = record { room_id = "r1"; user_id = "bob"; role = moderator; joined_at = pos 2 }

abbrev db : Db
db = record {
  rooms = den ∷ [];
  members = ann_row ∷ bob_row ∷ [];
  grants = [];
  invites = [];
  outbox = [];
}

kick_member-outcome_example :
    let after = (kick_member "ann" "r1" "bob" db).1 in
    (by : Member) × (t : Member) × (get_member "r1" "ann" db.members ≡ some by)
    × (get_member "r1" "bob" db.members ≡ some t)
    × (t.role ≢ owner)
    × ((by.role ≡ owner) ⊎ ((by.role ≡ moderator) × (t.role <ℤ moderator)))
    × (has_member "r1" "bob" after.members ≡ false)
    × ((r u : String)
        → (has_member r u db.members ≡ false)
          ⊎ ((str_eq r "r1" && str_eq u "bob") ≡ true)
          ⊎ (has_member r u after.members ≡ true))
unfolding kick_member kick_body in_tx get_member can_kick
kick_member-outcome_example = kick_member-outcome "ann" "r1" "bob" db true refl

owner_demoted_example :
    let demoted = (update_member_role "ann" "r1" "ann" member db).1 in
    has_member "r1" "ann" (kick_member "bob" "r1" "ann" demoted).1.members ≡ false
unfolding get_member
owner_demoted_example =
    owner_demoted "ann" "bob" "r1" db ann_row bob_row refl refl refl refl (differ "bob" "ann" refl)
