-- ===== src/RoomService/Rows.antt =====
-- How the statements of the tables change who is a member, and how many members a room has.
use vibe_sync.Base.{
  Bool-cases, inl, inr, ℕ, suc, ◌+◌, ◌≡◌, refl, Bool, true, false, ◌&&◌, ◌||◌, none, some, String,
  str_eq, eq_iff, List, [], ◌∷◌, ◌++◌, select, All, arith, if◌then◌else◌, ℤ,
}
use vibe_sync.RoomService.Model.{Member, Room}
use vibe_sync.RoomService.Tables.{
  is_member, get_member, get_room, upsert_member, delete_member, update_role, add_to_count,
}

-- The number of members that a room has.
unfoldable pub members_of : String → List Member → ℕ
members_of room [] = 0
members_of room (m ∷ ms) =
    let rest = members_of room ms in if str_eq m.room_id room then suc rest else rest

unfoldable pub has_member : String → String → List Member → Bool
has_member room user [] = false
has_member room user (m ∷ ms) = is_member room user m || has_member room user ms

unfoldable pub has_room : String → List Room → Bool
has_room id [] = false
has_room id (r ∷ rs) = str_eq r.id id || has_room id rs

-- The primary key of the members: no row stands for the member of an earlier row.
abbrev pub IsKeyed : List Member → Type 0
IsKeyed [] = Unit
IsKeyed (m ∷ ms) = (has_member m.room_id m.user_id ms ≡ false) × IsKeyed ms

pub get_member-none :
    (room user : String) (ms : List Member)
    → get_member room user ms ≡ none
    → has_member room user ms ≡ false
unfolding get_member has_member
get_member-none room user [] h = refl
get_member-none room user (m ∷ ms) h = ground (arith, get_member-none room user ms)

pub get_member-some :
    (room user : String) (ms : List Member) (m : Member)
    → get_member room user ms ≡ some m
    → has_member room user ms ≡ true
unfolding get_member has_member
get_member-some room user [] m h = absurd (cc)
get_member-some room user (x ∷ ms) m h = ground (arith, get_member-some room user ms m)

pub get_room-some :
    (id : String) (rs : List Room) (r : Room)
    → get_room id rs ≡ some r
    → (has_room id rs ≡ true) × (r.id ≡ id)
unfolding get_room has_room
get_room-some id [] r h = absurd (cc)
get_room-some id (x ∷ rs) r h = ground (arith, get_room-some id rs r, eq_iff x.id id)

pub upsert-new :
    (n : Member) (ms : List Member)
    → has_member n.room_id n.user_id ms ≡ false
    → upsert_member n ms ≡ ms ++ n ∷ []
unfolding upsert_member has_member
upsert-new n [] h = refl
upsert-new n (m ∷ ms) h = ground (arith, upsert-new n ms)

pub members_of-append :
    (room : String) (ms : List Member) (n : Member)
    → members_of room (ms ++ n ∷ [])
      ≡ (if str_eq n.room_id room then members_of room ms + 1 else members_of room ms)
unfolding members_of
members_of-append room [] n = ground arith
members_of-append room (m ∷ ms) n = ground (arith, members_of-append room ms n)

pub has_member-append :
    (room user : String) (ms : List Member) (n : Member)
    → has_member room user (ms ++ n ∷ []) ≡ (has_member room user ms || is_member room user n)
unfolding has_member
has_member-append room user [] n = ground arith
has_member-append room user (m ∷ ms) n = ground (arith, has_member-append room user ms n)

pub append-IsKeyed :
    (ms : List Member) (n : Member)
    → has_member n.room_id n.user_id ms ≡ false
    → IsKeyed ms
    → IsKeyed (ms ++ n ∷ [])
unfolding has_member
append-IsKeyed [] n h k = (refl, tt)
append-IsKeyed (m ∷ ms) n h k = (
  ground (
    arith,
    has_member-append m.room_id m.user_id ms n,
    k.0,
    eq_iff m.room_id n.room_id,
    eq_iff n.room_id m.room_id,
    eq_iff m.user_id n.user_id,
    eq_iff n.user_id m.user_id,
  ),
  append-IsKeyed ms n (ground arith) k.1,
)

-- A row that is left is a row that was there.
pub has_member-select :
    (p : Member → Bool) (room user : String) (ms : List Member)
    → has_member room user ms ≡ false
    → has_member room user (select p ms) ≡ false
unfolding has_member
has_member-select p room user [] h = refl
has_member-select p room user (m ∷ ms) h = ground (arith, has_member-select p room user ms)

pub select-IsKeyed : (p : Member → Bool) (ms : List Member) → IsKeyed ms → IsKeyed (select p ms)
select-IsKeyed p [] k = tt
select-IsKeyed p (m ∷ ms) k = elim (Bool-cases (p m)) [
  | inl kept ↦ rw kept (has_member-select p m.room_id m.user_id ms k.0, select-IsKeyed p ms k.1)
  | inr gone ↦ rw gone (select-IsKeyed p ms k.1)
]

pub select-All {ℓ} :
    {A : Type 0} (P : A → Type ℓ) (p : A → Bool) (xs : List A) → All P xs → All P (select p xs)
select-All P p [] h = tt
select-All P p (x ∷ xs) h = elim (Bool-cases (p x)) [
  | inl kept ↦ rw kept (h.0, select-All P p xs h.1)
  | inr gone ↦ rw gone (select-All P p xs h.1)
]

pub delete-absent :
    (room user : String) (ms : List Member)
    → has_member room user ms ≡ false
    → delete_member room user ms ≡ ms
unfolding delete_member has_member
delete-absent room user [] h = refl
delete-absent room user (m ∷ ms) h = ground (arith, delete-absent room user ms)

-- The deletion of a member takes exactly one row from its room.
pub members_of-delete :
    (room user id : String) (ms : List Member)
    → IsKeyed ms
    → has_member room user ms ≡ true
    → members_of id ms ≡ (
        if str_eq room id
        then members_of id (delete_member room user ms) + 1
        else members_of id (delete_member room user ms))
unfolding members_of delete_member has_member
members_of-delete room user id [] k h = absurd (cc)
members_of-delete room user id (m ∷ ms) k h = elim (Bool-cases (is_member room user m)) [
  | inl hit ↦
      ground (arith, delete-absent room user ms, k.0, eq_iff m.room_id room, eq_iff m.user_id user)
  | inr miss ↦ ground (arith, members_of-delete room user id ms k.1)
]

pub has_member-delete :
    (room user r u : String) (ms : List Member)
    → has_member r u ms ≡ true
    → (str_eq r room && str_eq u user) ≡ false
    → has_member r u (delete_member room user ms) ≡ true
unfolding has_member delete_member
has_member-delete room user r u [] h n = absurd (cc)
has_member-delete room user r u (m ∷ ms) h n =
    ground (arith, has_member-delete room user r u ms, eq_iff m.room_id r, eq_iff m.user_id u)

pub members_of-role :
    (room user : String) (role : ℤ) (id : String) (ms : List Member)
    → members_of id (update_role room user role ms) ≡ members_of id ms
unfolding members_of update_role
members_of-role room user role id [] = refl
members_of-role room user role id (m ∷ ms) = ground (arith, members_of-role room user role id ms)

pub has_member-role :
    (room user : String) (role : ℤ) (r u : String) (ms : List Member)
    → has_member r u (update_role room user role ms) ≡ has_member r u ms
unfolding has_member update_role
has_member-role room user role r u [] = refl
has_member-role room user role r u (m ∷ ms) = ground (arith, has_member-role room user role r u ms)

pub role-IsKeyed :
    (room user : String) (role : ℤ) (ms : List Member)
    → IsKeyed ms
    → IsKeyed (update_role room user role ms)
unfolding update_role
role-IsKeyed room user role [] k = tt
role-IsKeyed room user role (m ∷ ms) k = (
  ground (arith, has_member-role room user role m.room_id m.user_id ms, k.0),
  role-IsKeyed room user role ms k.1,
)

pub has_room-count :
    (room id : String) (delta : ℤ) (rs : List Room)
    → has_room id (add_to_count room delta rs) ≡ has_room id rs
unfolding has_room add_to_count
has_room-count room id delta [] = refl
has_room-count room id delta (r ∷ rs) = ground (arith, has_room-count room id delta rs)
