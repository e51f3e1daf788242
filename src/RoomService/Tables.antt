-- ===== src/RoomService/Tables.antt =====
-- apps/room-service/internal/infra/postgres: the tables and the statements on them. Of the
-- constraints of the migrations, the keys and the cascades of a deleted room are modelled. A role is
-- stored as a SMALLINT; the roles that the proto enum names fit into it.
use vibe_sync.Base.{wrap16}
use vibe_sync.RoomService.Model.{name_eq}
use vibe_sync.Base.{
  Bool, true, false, not, ◌&&◌, ◌||◌, Option, none, some, String, str_eq, ℤ, ltb_ℤ, ◌+ℤ◌, List, [],
  ◌∷◌, select, if◌then◌else◌,
}
use vibe_sync.RoomService.Model.{Name, Room, Member, RoomVisibility, Permissions}

pub record Grant : Type 0 where
  pub room_id : String
  pub user_id : String
  pub permissions : Permissions

pub record Invite : Type 0 where
  pub code : String
  pub room_id : String
  pub expires_at : Option ℤ

-- The payloads of the topics room.created.v1, room.joined.v1 and room.deleted.v1.
pub data RoomEvent : Type 0 where
  room_created :
      (room_id : String) → (slug name : Name) → (owner_id : String) → RoomVisibility → RoomEvent
  room_joined : (room_id user_id : String) → (role joined_at : ℤ) → RoomEvent
  room_deleted : (room_id : String) → (deleted_at : ℤ) → RoomEvent

pub record Db : Type 0 where
  pub rooms : List Room
  pub members : List Member
  pub grants : List Grant
  pub invites : List Invite
  pub outbox : List RoomEvent

unfoldable pub get_room : String → List Room → Option Room
get_room id [] = none
get_room id (r ∷ rs) = if str_eq r.id id then some r else get_room id rs

-- The test of `WHERE room_id=$1 AND user_id=$2`.
abbrev pub is_member : String → String → Member → Bool
is_member room user m = str_eq m.room_id room && str_eq m.user_id user

abbrev pub is_grant : String → String → Grant → Bool
is_grant room user g = str_eq g.room_id room && str_eq g.user_id user

unfoldable pub get_member : String → String → List Member → Option Member
get_member room user [] = none
get_member room user (m ∷ ms) = if is_member room user m then some m else get_member room user ms

-- The id or the slug of a new room is taken; the slug of a changed room is another room's.
unfoldable pub taken : Room → List Room → Bool
taken n [] = false
taken n (r ∷ rs) = str_eq r.id n.id || (name_eq r.slug n.slug || taken n rs)

unfoldable pub slug_taken : Room → List Room → Bool
slug_taken n [] = false
slug_taken n (r ∷ rs) = not (str_eq r.id n.id) && name_eq r.slug n.slug || slug_taken n rs

unfoldable pub upsert_member : Member → List Member → List Member
upsert_member n [] = n ∷ []
upsert_member n (m ∷ ms) =
    let rest = upsert_member n ms in
    if is_member n.room_id n.user_id m then record m { role = n.role } ∷ ms else m ∷ rest

unfoldable pub update_role : String → String → ℤ → List Member → List Member
update_role room user role [] = []
update_role room user role (m ∷ ms) =
    (if is_member room user m then record m { role = wrap16 role } else m)
    ∷ update_role room user role ms

unfoldable pub delete_member : String → String → List Member → List Member
delete_member room user ms = select (λ m. not (is_member room user m)) ms

unfoldable pub delete_grants : String → String → List Grant → List Grant
delete_grants room user gs = select (λ g. not (is_grant room user g)) gs

unfoldable pub set_grant : Grant → List Grant → List Grant
set_grant n [] = n ∷ []
set_grant n (g ∷ gs) =
    let rest = set_grant n gs in if is_grant n.room_id n.user_id g then n ∷ gs else g ∷ rest

unfoldable pub get_grant : String → String → List Grant → Permissions
get_grant room user [] = 0
get_grant room user (g ∷ gs) =
    if is_grant room user g then g.permissions else get_grant room user gs

unfoldable pub add_to_count : String → ℤ → List Room → List Room
add_to_count id delta [] = []
add_to_count id delta (r ∷ rs) =
    (if str_eq r.id id then record r { member_count = r.member_count +ℤ delta } else r)
    ∷ add_to_count id delta rs

-- The columns that `UPDATE rooms` writes; the owner and the creation time stay.
unfoldable pub update_room : Room → List Room → List Room
update_room n [] = []
update_room n (r ∷ rs) =
    (if str_eq r.id n.id then record n { owner_id = r.owner_id; created_at = r.created_at } else r)
    ∷ update_room n rs

-- A deleted room takes its members, grants and invites with it.
unfoldable pub delete_room_rows : String → Db → Db
delete_room_rows id db = record db {
  rooms = select (λ r. not (str_eq r.id id)) db.rooms;
  members = select (λ m. not (str_eq m.room_id id)) db.members;
  grants = select (λ g. not (str_eq g.room_id id)) db.grants;
  invites = select (λ i. not (str_eq i.room_id id)) db.invites;
}

-- An invite without an expiry never expires.
abbrev lasts : ℤ → Option ℤ → Bool
lasts now none = true
lasts now (some t) = ltb_ℤ now t

unfoldable pub get_invite : ℤ → String → List Invite → Option String
get_invite now code [] = none
get_invite now code (i ∷ is) =
    if str_eq i.code code && lasts now i.expires_at then some i.room_id else get_invite now code is
