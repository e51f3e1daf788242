-- ===== src/RoomService/Consistent.antt =====
-- The tables agree with each other: what each change of the rows has to keep.
use vibe_sync.Base.{
  ℕ, ◌≡◌, sym, ap, ◌∙◌, true, false, not, ◌&&◌, String, str_eq, eq_iff, eq_refl, Bool-cases, inl,
  inr, List, [], ◌∷◌, ◌++◌, All, All-append, arith, int_laws, if◌then◌else◌, ℤ, pos, negsuc, ◌+ℤ◌,
}
use vibe_sync.RoomService.Model.{Member, Room}
use vibe_sync.RoomService.Tables.{
  Db, Grant, is_member, delete_member, delete_grants, set_grant, update_role, add_to_count,
}
use vibe_sync.RoomService.Lifecycle.{join}
use vibe_sync.RoomService.Membership.{remove, granted_row}
use vibe_sync.RoomService.Rows.{
  members_of, has_member, has_room, IsKeyed, upsert-new, members_of-append, has_member-append,
  append-IsKeyed, select-IsKeyed, select-All, members_of-delete, has_member-delete, members_of-role,
  has_member-role, role-IsKeyed, has_room-count,
}

abbrev pub IsCounted : List Member → List Room → Type 0
IsCounted ms rs = All (λ r. r.member_count ≡ pos (members_of r.id ms)) rs

abbrev pub IsHoused : List Room → List Member → Type 0
IsHoused rs ms = All (λ m. has_room m.room_id rs ≡ true) ms

abbrev pub IsGranted : List Member → List Grant → Type 0
IsGranted ms gs = All (λ g. has_member g.room_id g.user_id ms ≡ true) gs

-- The count of each room is the number of its members, no member has two rows, each member is in
-- a room that exists, and each grant belongs to a member.
pub record IsConsistent (db : Db) : Type 0 where
  pub counted : IsCounted db.members db.rooms
  pub keyed : IsKeyed db.members
  pub housed : IsHoused db.rooms db.members
  pub granted : IsGranted db.members db.grants

-- The counts of a room move with its members.
pub IsCounted-shift :
    (room : String) (delta : ℤ) (ms ms' : List Member) (rs : List Room)
    → ((id : String)
        → pos (members_of id ms')
          ≡ (if str_eq id room then pos (members_of id ms) +ℤ delta else pos (members_of id ms)))
    → IsCounted ms rs
    → IsCounted ms' (add_to_count room delta rs)
unfolding add_to_count
IsCounted-shift room delta ms ms' [] move h = tt
IsCounted-shift room delta ms ms' (r ∷ rs) move h =
    (ground (arith, h.0, move r.id), IsCounted-shift room delta ms ms' rs move h.1)

pub IsCounted-same :
    (ms ms' : List Member) (rs : List Room)
    → ((id : String) → has_room id rs ≡ true → members_of id ms' ≡ members_of id ms)
    → IsCounted ms rs
    → IsCounted ms' rs
unfolding has_room
IsCounted-same ms ms' [] same h = tt
IsCounted-same ms ms' (r ∷ rs) same h = (
  h.0 ∙ ap pos (sym (same r.id (ground (arith, eq_refl r.id)))),
  IsCounted-same ms ms' rs (λ id there. same id (ground arith)) h.1,
)

pub IsHoused-same :
    (rs rs' : List Room) (ms : List Member)
    → ((id : String) → has_room id rs ≡ true → has_room id rs' ≡ true)
    → IsHoused rs ms
    → IsHoused rs' ms
IsHoused-same rs rs' [] same h = tt
IsHoused-same rs rs' (m ∷ ms) same h = (same m.room_id h.0, IsHoused-same rs rs' ms same h.1)

pub IsGranted-same :
    (ms ms' : List Member) (gs : List Grant)
    → ((room user : String) → has_member room user ms ≡ true → has_member room user ms' ≡ true)
    → IsGranted ms gs
    → IsGranted ms' gs
IsGranted-same ms ms' [] same h = tt
IsGranted-same ms ms' (g ∷ gs) same h =
    (same g.room_id g.user_id h.0, IsGranted-same ms ms' gs same h.1)

pub join-IsConsistent :
    (m : Member) (db : Db)
    → has_room m.room_id db.rooms ≡ true
    → has_member m.room_id m.user_id db.members ≡ false
    → IsConsistent db
    → IsConsistent (join m db)
unfolding join
join-IsConsistent m db house fresh h = rw (upsert-new m db.members fresh) (record {
  counted =
      IsCounted-shift m.room_id (pos 1) db.members (db.members ++ m ∷ []) db.rooms
        (λ id.
          grind
            (int_laws, members_of-append id db.members m, eq_iff id m.room_id, eq_iff m.room_id id))
        h.counted;
  keyed = append-IsKeyed db.members m fresh h.keyed;
  housed =
      IsHoused-same db.rooms (add_to_count m.room_id (pos 1) db.rooms) (db.members ++ m ∷ [])
        (λ id there. ground (arith, has_room-count m.room_id id (pos 1) db.rooms))
        (All-append (λ x. has_room x.room_id db.rooms ≡ true) db.members (m ∷ []) h.housed
          (house, tt));
  granted =
      IsGranted-same db.members (db.members ++ m ∷ []) db.grants
        (λ room user there. ground (arith, has_member-append room user db.members m)) h.granted;
})

IsGranted-delete :
    (room user : String) (ms : List Member) (gs : List Grant)
    → IsGranted ms gs
    → IsGranted (delete_member room user ms) (delete_grants room user gs)
unfolding delete_grants
IsGranted-delete room user ms [] h = tt
IsGranted-delete room user ms (g ∷ gs) h =
    elim (Bool-cases (str_eq g.room_id room && str_eq g.user_id user)) [
      | inl hit ↦ rw hit (IsGranted-delete room user ms gs h.1)
      | inr miss ↦ rw miss (
        has_member-delete room user g.room_id g.user_id ms h.0 miss,
        IsGranted-delete room user ms gs h.1,
      )
    ]

pub remove-IsConsistent :
    (room user : String) (db : Db)
    → has_member room user db.members ≡ true
    → IsConsistent db
    → IsConsistent (remove room user db)
unfolding remove delete_member
remove-IsConsistent room user db there h = record {
  counted =
      IsCounted-shift room (negsuc 0) db.members (delete_member room user db.members) db.rooms
        (λ id. grind (
          int_laws,
          members_of-delete room user id db.members h.keyed there,
          eq_iff id room,
          eq_iff room id,
        ))
        h.counted;
  keyed = select-IsKeyed (λ m. not (is_member room user m)) db.members h.keyed;
  housed =
      IsHoused-same db.rooms (add_to_count room (negsuc 0) db.rooms)
        (delete_member room user db.members)
        (λ id home. ground (arith, has_room-count room id (negsuc 0) db.rooms))
        (select-All (λ x. has_room x.room_id db.rooms ≡ true) (λ m. not (is_member room user m))
          db.members h.housed);
  granted = IsGranted-delete room user db.members db.grants h.granted;
}

IsHoused-role :
    (room user : String) (role : ℤ) (rs : List Room) (ms : List Member)
    → IsHoused rs ms
    → IsHoused rs (update_role room user role ms)
unfolding update_role
IsHoused-role room user role rs [] h = tt
IsHoused-role room user role rs (m ∷ ms) h =
    (ground (arith, h.0), IsHoused-role room user role rs ms h.1)

pub role-IsConsistent :
    (room user : String) (role : ℤ) (db : Db)
    → IsConsistent db
    → IsConsistent (record db { members = update_role room user role db.members })
role-IsConsistent room user role db h = record {
  counted =
      IsCounted-same db.members (update_role room user role db.members) db.rooms
        (λ id there. members_of-role room user role id db.members) h.counted;
  keyed = role-IsKeyed room user role db.members h.keyed;
  housed = IsHoused-role room user role db.rooms db.members h.housed;
  granted =
      IsGranted-same db.members (update_role room user role db.members) db.grants
        (λ r u there. has_member-role room user role r u db.members ∙ there) h.granted;
}

IsGranted-set :
    (n : Grant) (ms : List Member) (gs : List Grant)
    → has_member n.room_id n.user_id ms ≡ true
    → IsGranted ms gs
    → IsGranted ms (set_grant n gs)
unfolding set_grant
IsGranted-set n ms [] there h = (there, tt)
IsGranted-set n ms (g ∷ gs) there h =
    elim (Bool-cases (str_eq g.room_id n.room_id && str_eq g.user_id n.user_id)) [
      | inl hit ↦ rw hit (there, h.1)
      | inr miss ↦ rw miss (h.0, IsGranted-set n ms gs there h.1)
    ]

pub grant-IsConsistent :
    (room user : String) (perms : ℕ) (db : Db)
    → has_member room user db.members ≡ true
    → IsConsistent db
    → IsConsistent (granted_row room user perms db)
grant-IsConsistent room user perms db there h = record {
  counted = h.counted;
  keyed = h.keyed;
  housed = h.housed;
  granted =
      IsGranted-set (record { room_id = room; user_id = user; permissions = perms }) db.members
        db.grants there h.granted;
}
