-- ===== src/RoomService/RoomRows.antt =====
-- Changes of the rows of rooms: a new room, a changed one, and one that is deleted.
use vibe_sync.Base.{
  some, subst, ◌≡◌, refl, false, not, ◌||◌, String, str_eq, eq_iff, Bool-cases, inl, inr, List, [],
  ◌∷◌, ◌++◌, select, All-append, arith, pos,
}
use vibe_sync.RoomService.Tables.{get_room, Db, Grant, update_room, delete_room_rows, taken}
use vibe_sync.RoomService.Model.{Member, Room}
use vibe_sync.RoomService.Rows.{members_of, has_member, has_room, select-IsKeyed}
use vibe_sync.RoomService.Consistent.{IsCounted, IsHoused, IsGranted, IsConsistent, IsHoused-same}

IsCounted-update :
    (n : Room) (ms : List Member) (rs : List Room)
    → n.member_count ≡ pos (members_of n.id ms)
    → IsCounted ms rs
    → IsCounted ms (update_room n rs)
unfolding update_room
IsCounted-update n ms [] right h = tt
IsCounted-update n ms (r ∷ rs) right h =
    (ground (arith, right, h.0), IsCounted-update n ms rs right h.1)

has_room-update :
    (n : Room) (id : String) (rs : List Room) → has_room id (update_room n rs) ≡ has_room id rs
unfolding has_room update_room
has_room-update n id [] = refl
has_room-update n id (r ∷ rs) = ground (arith, has_room-update n id rs, eq_iff r.id n.id)

pub update-IsConsistent :
    (n : Room) (db : Db)
    → n.member_count ≡ pos (members_of n.id db.members)
    → IsConsistent db
    → IsConsistent (record db { rooms = update_room n db.rooms })
update-IsConsistent n db right h = record {
  counted = IsCounted-update n db.members db.rooms right h.counted;
  keyed = h.keyed;
  housed =
      IsHoused-same db.rooms (update_room n db.rooms) db.members
        (λ id there. rw (has_room-update n id db.rooms) there) h.housed;
  granted = h.granted;
}

pub count-found :
    (id : String) (ms : List Member) (rs : List Room) (r : Room)
    → get_room id rs ≡ some r
    → IsCounted ms rs
    → r.member_count ≡ pos (members_of r.id ms)
unfolding get_room
count-found id ms [] r found h = absurd (cc)
count-found id ms (x ∷ rs) r found h = elim (Bool-cases (str_eq x.id id)) [
  | inl hit ↦
      let same : x ≡ r = ground arith in
      subst (λ y. y.member_count ≡ pos (members_of y.id ms)) same h.0
  | inr miss ↦ count-found id ms rs r (ground arith) h.1
]

taken-room : (n : Room) (rs : List Room) → taken n rs ≡ false → has_room n.id rs ≡ false
unfolding taken has_room
taken-room n [] free = refl
taken-room n (r ∷ rs) free = ground (arith, taken-room n rs)

-- Nobody is in a room that does not exist.
nobody :
    (id : String) (rs : List Room) (ms : List Member)
    → has_room id rs ≡ false
    → IsHoused rs ms
    → members_of id ms ≡ 0
unfolding members_of
nobody id rs [] gone h = refl
nobody id rs (m ∷ ms) gone h = ground (arith, nobody id rs ms gone h.1, h.0, eq_iff m.room_id id)

pub nobody-member :
    (id user : String) (rs : List Room) (ms : List Member)
    → has_room id rs ≡ false
    → IsHoused rs ms
    → has_member id user ms ≡ false
unfolding has_member
nobody-member id user rs [] gone h = refl
nobody-member id user rs (m ∷ ms) gone h =
    ground (arith, nobody-member id user rs ms gone h.1, h.0, eq_iff m.room_id id)

pub has_room-append :
    (id : String) (rs : List Room) (r : Room)
    → has_room id (rs ++ r ∷ []) ≡ (has_room id rs || str_eq r.id id)
unfolding has_room
has_room-append id [] r = ground arith
has_room-append id (x ∷ rs) r = ground (arith, has_room-append id rs r)

pub insert-IsConsistent :
    (r : Room) (db : Db)
    → taken r db.rooms ≡ false
    → r.member_count ≡ pos 0
    → IsConsistent db
    → IsConsistent (record db { rooms = db.rooms ++ r ∷ [] })
insert-IsConsistent r db free zero_count h =
    let empty_room = nobody r.id db.rooms db.members (taken-room r db.rooms free) h.housed in
    record {
      counted =
          All-append (λ x. x.member_count ≡ pos (members_of x.id db.members)) db.rooms (r ∷ [])
            h.counted (rw (zero_count, empty_room) refl, tt);
      keyed = h.keyed;
      housed =
          IsHoused-same db.rooms (db.rooms ++ r ∷ []) db.members
            (λ id there. ground (arith, has_room-append id db.rooms r)) h.housed;
      granted = h.granted;
    }

pub insert-free :
    (r : Room) (user : String) (db : Db)
    → taken r db.rooms ≡ false
    → IsConsistent db
    → has_member r.id user db.members ≡ false
insert-free r user db free h =
    nobody-member r.id user db.rooms db.members (taken-room r db.rooms free) h.housed

-- The rows of another room stay when a room is deleted.
members_of-others :
    (gone id : String) (ms : List Member)
    → str_eq id gone ≡ false
    → members_of id (select (λ m. not (str_eq m.room_id gone)) ms) ≡ members_of id ms
unfolding members_of
members_of-others gone id [] other = refl
members_of-others gone id (m ∷ ms) other = ground (
  arith,
  members_of-others gone id ms other,
  eq_iff m.room_id id,
  eq_iff m.room_id gone,
  eq_iff id gone,
)

has_member-others :
    (gone room user : String) (ms : List Member)
    → str_eq room gone ≡ false
    → has_member room user (select (λ m. not (str_eq m.room_id gone)) ms) ≡ has_member room user ms
unfolding has_member
has_member-others gone room user [] other = refl
has_member-others gone room user (m ∷ ms) other = ground (
  arith,
  has_member-others gone room user ms other,
  eq_iff m.room_id room,
  eq_iff m.room_id gone,
  eq_iff room gone,
)

has_room-others :
    (gone id : String) (rs : List Room)
    → str_eq id gone ≡ false
    → has_room id (select (λ r. not (str_eq r.id gone)) rs) ≡ has_room id rs
unfolding has_room
has_room-others gone id [] other = refl
has_room-others gone id (r ∷ rs) other =
    ground
      (arith, has_room-others gone id rs other, eq_iff r.id id, eq_iff r.id gone, eq_iff id gone)

IsCounted-others :
    (gone : String) (ms : List Member) (rs : List Room)
    → IsCounted ms rs
    → IsCounted
        (select (λ m. not (str_eq m.room_id gone)) ms)
        (select (λ r. not (str_eq r.id gone)) rs)
IsCounted-others gone ms [] h = tt
IsCounted-others gone ms (r ∷ rs) h = elim (Bool-cases (str_eq r.id gone)) [
  | inl hit ↦ rw hit (IsCounted-others gone ms rs h.1)
  | inr miss ↦
      rw miss
        (ground (arith, h.0, members_of-others gone r.id ms miss), IsCounted-others gone ms rs h.1)
]

IsHoused-others :
    (gone : String) (rs : List Room) (ms : List Member)
    → IsHoused rs ms
    → IsHoused
        (select (λ r. not (str_eq r.id gone)) rs)
        (select (λ m. not (str_eq m.room_id gone)) ms)
IsHoused-others gone rs [] h = tt
IsHoused-others gone rs (m ∷ ms) h = elim (Bool-cases (str_eq m.room_id gone)) [
  | inl hit ↦ rw hit (IsHoused-others gone rs ms h.1)
  | inr miss ↦
      rw miss (
        ground (arith, h.0, has_room-others gone m.room_id rs miss),
        IsHoused-others gone rs ms h.1,
      )
]

IsGranted-others :
    (gone : String) (ms : List Member) (gs : List Grant)
    → IsGranted ms gs
    → IsGranted
        (select (λ m. not (str_eq m.room_id gone)) ms)
        (select (λ g. not (str_eq g.room_id gone)) gs)
IsGranted-others gone ms [] h = tt
IsGranted-others gone ms (g ∷ gs) h = elim (Bool-cases (str_eq g.room_id gone)) [
  | inl hit ↦ rw hit (IsGranted-others gone ms gs h.1)
  | inr miss ↦ rw miss (
    ground (arith, h.0, has_member-others gone g.room_id g.user_id ms miss),
    IsGranted-others gone ms gs h.1,
  )
]

pub delete-IsConsistent :
    (gone : String) (db : Db) → IsConsistent db → IsConsistent (delete_room_rows gone db)
unfolding delete_room_rows
delete-IsConsistent gone db h = record {
  counted = IsCounted-others gone db.members db.rooms h.counted;
  keyed = select-IsKeyed (λ m. not (str_eq m.room_id gone)) db.members h.keyed;
  housed = IsHoused-others gone db.rooms db.members h.housed;
  granted = IsGranted-others gone db.members db.grants h.granted;
}
