-- ===== src/RoomService/MemberRequests.antt =====
-- Joining, leaving and managing members keep the tables consistent.
use vibe_sync.RoomService.Tables.{Db, get_room, get_member}
use vibe_sync.RoomService.Lifecycle.{Subject, join_room, join_body, join_missing, admitted}
use vibe_sync.RoomService.Model.{member, is_full, can_kick, can_promote, permissions_from_proto}
use vibe_sync.Base.{ltb_ℤ, ℕ, Bool-cases, Option-cases, inl, inr, String, str_eq, ℤ, pos, List}
use vibe_sync.RoomService.Transaction.{in_tx}
use vibe_sync.RoomService.Membership.{
  leave_room, leave_body, kick_member, kick_body, update_member_role, promote_body,
  grant_permissions, grant_body,
}
use vibe_sync.RoomService.Rows.{get_member-none, get_member-some, get_room-some}
use vibe_sync.RoomService.Consistent.{
  IsConsistent, join-IsConsistent, remove-IsConsistent, role-IsConsistent, grant-IsConsistent,
}

pub leave_room-IsConsistent :
    (user room : String) (db : Db) → IsConsistent db → IsConsistent (leave_room user room db).1
unfolding leave_room leave_body in_tx
leave_room-IsConsistent user room db h = elim (Option-cases (get_room room db.rooms)) [
  | inl missing ↦ rw missing h
  | inr (r, found) ↦ elim (Bool-cases (str_eq r.owner_id user)) [
    | inl owns ↦ rw (found, owns) h
    | inr other ↦ elim (Option-cases (get_member room user db.members)) [
      | inl outside ↦ rw (found, other, outside) h
      | inr (m, inside) ↦
          rw (found, other, inside)
            (remove-IsConsistent room user db (get_member-some room user db.members m inside) h)
    ]
  ]
]

pub kick_member-IsConsistent :
    (caller room target : String) (db : Db)
    → IsConsistent db
    → IsConsistent (kick_member caller room target db).1
unfolding kick_member kick_body in_tx
kick_member-IsConsistent caller room target db h =
    elim (Option-cases (get_member room caller db.members)) [
      | inl stranger ↦ rw stranger h
      | inr (by, known) ↦ elim (Option-cases (get_member room target db.members)) [
        | inl outside ↦ rw (known, outside) h
        | inr (t, inside) ↦ elim (Bool-cases (can_kick by.role t.role)) [
          | inl may ↦
              rw (known, inside, may)
                (remove-IsConsistent room target db
                  (get_member-some room target db.members t inside) h)
          | inr may_not ↦ rw (known, inside, may_not) h
        ]
      ]
    ]

pub update_member_role-IsConsistent :
    (caller room target : String) (role : ℤ) (db : Db)
    → IsConsistent db
    → IsConsistent (update_member_role caller room target role db).1
unfolding update_member_role promote_body in_tx
update_member_role-IsConsistent caller room target role db h =
    elim (Option-cases (get_member room caller db.members)) [
      | inl stranger ↦ rw stranger h
      | inr (by, known) ↦ elim (Bool-cases (can_promote by.role role)) [
        | inr may_not ↦ rw (known, may_not) h
        | inl may ↦ elim (Option-cases (get_member room target db.members)) [
          | inl outside ↦ rw (known, may, outside) h
          | inr (t, inside) ↦ rw (known, may, inside) (role-IsConsistent room target role db h)
        ]
      ]
    ]

pub grant_permissions-IsConsistent :
    (caller room target : String) (wanted : List ℕ) (db : Db)
    → IsConsistent db
    → IsConsistent (grant_permissions caller room target wanted db).1
unfolding grant_permissions grant_body in_tx
grant_permissions-IsConsistent caller room target wanted db h =
    elim (Option-cases (get_room room db.rooms)) [
      | inl missing ↦ rw missing h
      | inr (r, found) ↦ elim (Bool-cases (str_eq r.owner_id caller)) [
        | inr other ↦ rw (found, other) h
        | inl owns ↦ elim (Bool-cases (str_eq target caller)) [
          | inl itself ↦ rw (found, owns, itself) h
          | inr somebody ↦ elim (Option-cases (get_member room target db.members)) [
            | inl outside ↦ rw (found, owns, somebody, outside) h
            | inr (t, inside) ↦
                rw (found, owns, somebody, inside)
                  (grant-IsConsistent room target (permissions_from_proto wanted 0) db
                    (get_member-some room target db.members t inside) h)
          ]
        ]
      ]
    ]

pub join_room-IsConsistent :
    (s : Subject) (now : ℤ) (room code : String) (db : Db)
    → IsConsistent db
    → IsConsistent (join_room s now room code db).1
unfolding join_room join_body in_tx join_missing
join_room-IsConsistent s now room code db h = elim (Bool-cases (ltb_ℤ s.system_role (pos 2))) [
  | inl low ↦ rw low h
  | inr user ↦ elim (Bool-cases (str_eq room "")) [
    | inl unnamed ↦ rw (user, unnamed) h
    | inr named ↦ elim (Option-cases (get_room room db.rooms)) [
      | inl missing ↦ rw (user, named, missing) h
      | inr (r, found) ↦ elim (Bool-cases (admitted now code room r db)) [
        | inr shut ↦ rw (user, named, found, shut) h
        | inl let_in ↦ elim (Bool-cases (is_full r)) [
          | inl crowded ↦ rw (user, named, found, let_in, crowded) h
          | inr space ↦ elim (Option-cases (get_member room s.user_id db.members)) [
            | inr (m, inside) ↦ rw (user, named, found, let_in, space, inside) h
            | inl outside ↦
                rw (user, named, found, let_in, space, outside)
                  (let joined =
                      join-IsConsistent
                        (record {
                          room_id = room;
                          user_id = s.user_id;
                          role = member;
                          joined_at = now;
                        })
                        db (get_room-some room db.rooms r found).0
                        (get_member-none room s.user_id db.members outside) h in
                    record {
                      counted = joined.counted;
                      keyed = joined.keyed;
                      housed = joined.housed;
                      granted = joined.granted;
                    })
          ]
        ]
      ]
    ]
  ]
]
