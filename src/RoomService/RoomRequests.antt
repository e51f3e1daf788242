-- ===== src/RoomService/RoomRequests.antt =====
-- Creating, changing and deleting rooms keep the tables consistent.
use vibe_sync.RoomService.Tables.{
  RoomEvent, room_created, taken, slug_taken, Db, get_room, get_member,
}
use vibe_sync.RoomService.Lifecycle.{
  append_event, needs_code, create_room, create_checked, create_rows, insert_room, invited,
  require_room_role, write_room, Subject, change_room, delete_room, join,
}
use vibe_sync.RoomService.Model.{
  Checked, refused, new_room, Room, Member, owner, fine, apply_update, Name, RoomVisibility,
}
use vibe_sync.Base.{
  ◌⊎◌, ◌++◌, eq_refl, refl, ltb_ℤ, Bool-cases, Option, Option-cases, inl, inr, String, ℤ, pos, [],
  ◌∷◌, ◌≡◌, arith,
}
use vibe_sync.RoomService.Transaction.{RoomError, Result, ok, err, in_tx}
use vibe_sync.RoomService.RoomRows.{
  update-IsConsistent, insert-IsConsistent, insert-free, count-found, delete-IsConsistent,
  has_room-append,
}
use vibe_sync.RoomService.Consistent.{IsConsistent, join-IsConsistent}

Result-cases :
    (x : Result (Unit {0}) × Db)
    → ((e : RoomError) × (db : Db) × (x ≡ (err e, db))) ⊎ ((db : Db) × (x ≡ (ok tt, db)))
Result-cases (ok a, db) = inr (db, refl)
Result-cases (err e, db) = inl (e, db, refl)

-- A check of a role changes nothing.
require-db :
    (room : String) (s : Subject) (min_role : ℤ) (db after : Db)
    → require_room_role room s min_role db ≡ (ok tt, after)
    → after ≡ db
unfolding require_room_role
require-db room s min_role db after h = elim (Bool-cases (ltb_ℤ s.system_role (pos 4))) [
  | inr admin ↦ ground arith
  | inl user ↦ elim (Option-cases (get_member room s.user_id db.members)) [
    | inl stranger ↦ ground arith
    | inr (m, inside) ↦ elim (Bool-cases (ltb_ℤ m.role min_role)) [
      | inl low ↦ ground arith
      | inr high ↦ ground arith
    ]
  ]
]

update_keeps :
    (now : ℤ) (name description : Option Name) (visibility : Option RoomVisibility) (max : Option ℤ)
    (slug_of : Name → Name) (r : Room)
    → let n = apply_update now name description visibility max slug_of r in
      (n.id ≡ r.id) × (n.member_count ≡ r.member_count)
unfolding apply_update
update_keeps now name description visibility max slug_of r = ground arith

pub delete_room-IsConsistent :
    (s : Subject) (now : ℤ) (id : String) (db : Db)
    → IsConsistent db
    → IsConsistent (delete_room s now id db).1
unfolding delete_room in_tx
delete_room-IsConsistent s now id db h = elim (Result-cases (require_room_role id s owner db)) [
  | inl (e, after, refused_by) ↦ rw refused_by h
  | inr (after, e) ↦
      let same : after ≡ db = require-db id s owner db after e in
      let gone = delete-IsConsistent id db h in
      rw (e, same)
        (record {
          counted = gone.counted;
          keyed = gone.keyed;
          housed = gone.housed;
          granted = gone.granted;
        })
]

pub change_room-IsConsistent :
    (s : Subject) (now : ℤ) (id : String) (name description : Option Name)
    (visibility : Option RoomVisibility) (max : Option ℤ) (slug_of : Name → Name) (db : Db)
    → IsConsistent db
    → IsConsistent (change_room s now id name description visibility max slug_of db).1
unfolding change_room in_tx write_room
change_room-IsConsistent s now id name description visibility max slug_of db h =
    elim (Option-cases (get_room id db.rooms)) [
      | inl missing ↦ rw missing h
      | inr (r, found) ↦ elim (Result-cases (require_room_role id s owner db)) [
        | inl (e, after, refused_by) ↦ rw (found, refused_by) h
        | inr (after, e) ↦
            let same : after ≡ db = require-db id s owner db after e in
            let n : Room = apply_update now name description visibility max slug_of r in
            let (id_kept, count_kept) =
              update_keeps now name description visibility max slug_of r in
            elim (Bool-cases (slug_taken n db.rooms)) [
              | inl clash ↦ rw (found, e, same, clash) h
              | inr free ↦
                  rw (found, e, same, free)
                    (update-IsConsistent n db
                      (rw (id_kept, count_kept)
                        (count-found id db.members db.rooms r found h.counted))
                      h)
            ]
      ]
    ]

-- Invites and events are no business of the members.
invited-IsConsistent :
    (code : String) (r : Room) (e : RoomEvent) (db : Db)
    → IsConsistent db
    → IsConsistent (append_event e (invited code r db))
unfolding invited
invited-IsConsistent code r e db h = elim (Bool-cases (needs_code r)) [
  | inl y ↦
      rw y (record { counted = h.counted; keyed = h.keyed; housed = h.housed; granted = h.granted })
  | inr n ↦
      rw n (record { counted = h.counted; keyed = h.keyed; housed = h.housed; granted = h.granted })
]

insert_new-IsConsistent :
    (r : Room) (now : ℤ) (code : String) (db : Db)
    → r.member_count ≡ pos 0
    → IsConsistent db
    → IsConsistent (create_checked (fine r) now code db).1
unfolding create_checked create_rows insert_room in_tx invited
insert_new-IsConsistent r now code db zero_count h = elim (Bool-cases (taken r db.rooms)) [
  | inl clash ↦ rw clash h
  | inr free ↦
      let first : Member = record {
        room_id = r.id;
        user_id = r.owner_id;
        role = owner;
        joined_at = now;
      } in
      let with_room : Db = record db { rooms = db.rooms ++ r ∷ [] } in
      let joined =
        join-IsConsistent first with_room
          (ground (arith, has_room-append r.id db.rooms r, eq_refl r.id))
          (insert-free r r.owner_id db free h) (insert-IsConsistent r db free zero_count h) in
      rw free (
        invited-IsConsistent code r (room_created r.id r.slug r.name r.owner_id r.visibility)
          (join first with_room) joined)
]

create_checked-IsConsistent :
    (c : Checked) (now : ℤ) (code : String) (db : Db)
    → ((r : Room) → c ≡ fine r → r.member_count ≡ pos 0)
    → IsConsistent db
    → IsConsistent (create_checked c now code db).1
unfolding create_checked
create_checked-IsConsistent (refused e) now code db zero_count h = h
create_checked-IsConsistent (fine r) now code db zero_count h =
    insert_new-IsConsistent r now code db (zero_count r refl) h

new_room-empty :
    (now : ℤ) (id owner_id : String) (name description : Name) (visibility : RoomVisibility)
    (max : Option ℤ) (slug_of : Name → Name) (r : Room)
    → new_room now id owner_id name description visibility max slug_of ≡ fine r
    → r.member_count ≡ pos 0
unfolding new_room
new_room-empty now id owner_id name description visibility max slug_of r h = ground arith

pub create_room-IsConsistent :
    (s : Subject) (now : ℤ) (id code : String) (name description : Name)
    (visibility : RoomVisibility) (max : Option ℤ) (slug_of : Name → Name) (db : Db)
    → IsConsistent db
    → IsConsistent (create_room s now id code name description visibility max slug_of db).1
unfolding create_room
create_room-IsConsistent s now id code name description visibility max slug_of db h =
    elim (Bool-cases (ltb_ℤ s.system_role (pos 2))) [
      | inl low ↦ rw low h
      | inr user ↦ rw user (
          create_checked-IsConsistent
            (new_room now id s.user_id name description visibility max slug_of) now code db
            (new_room-empty now id s.user_id name description visibility max slug_of) h)
    ]
