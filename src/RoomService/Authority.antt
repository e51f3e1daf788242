-- ===== src/RoomService/Authority.antt =====
-- Who may do what to whom: kicks, joins, and what can become of the owner.
use vibe_sync.Base.{wrap16}
use vibe_sync.RoomService.Membership.{
  remove, kick_member, kick_body, update_member_role, promote_body,
}
use vibe_sync.Base.{
  int_laws, ◌⊎◌, ◌≡◌, ◌≢◌, refl, Bool, true, false, ◌&&◌, Bool-cases, Option-cases, some, inl, inr,
  String, str_eq, eq_iff, ℤ, pos, ◌<ℤ◌, ◌≤ℤ◌, List, [], ◌∷◌, arith,
}
use vibe_sync.RoomService.Tables.{Db, get_room, get_member, delete_member, update_role}
use vibe_sync.RoomService.Model.{
  Room, Member, member, moderator, owner, can_kick, can_promote, is_full,
}
use vibe_sync.RoomService.Transaction.{ok, err, in_tx, room_full}
use vibe_sync.RoomService.Lifecycle.{Subject, join_room, join_body, admitted}
use vibe_sync.RoomService.Rows.{has_member, has_member-delete}

can_kick_lem :
    (by target : ℤ)
    → can_kick by target ≡ true
    → (target ≢ owner) × ((by ≡ owner) ⊎ ((by ≡ moderator) × (target <ℤ moderator)))
unfolding can_kick
can_kick_lem by target h = (λ e. ground (arith, h, e), grind (int_laws, h))

deleted :
    (room user : String) (ms : List Member)
    → has_member room user (delete_member room user ms) ≡ false
unfolding has_member delete_member
deleted room user [] = refl
deleted room user (m ∷ ms) = ground (arith, deleted room user ms)

others :
    (room user : String) (ms : List Member) (r u : String)
    → (has_member r u ms ≡ false)
      ⊎ ((str_eq r room && str_eq u user) ≡ true)
      ⊎ (has_member r u (delete_member room user ms) ≡ true)
others room user ms r u = elim (Bool-cases (has_member r u ms)) [
  | inr outside ↦ inl outside
  | inl inside ↦ elim (Bool-cases (str_eq r room && str_eq u user)) [
    | inl itself ↦ inr (inl itself)
    | inr other ↦ inr (inr (has_member-delete room user r u ms inside other))
  ]
]

-- A kick that succeeds was made by a member with the owner's role, or by a moderator of somebody
-- below the moderators, and never hits a member with the owner's role; afterwards the target is no
-- member, and every other member of any room still is one.
pub kick_member-outcome :
    (caller room target : String) (db : Db) (answer : Bool)
    → (kick_member caller room target db).0 ≡ ok answer
    → let after = (kick_member caller room target db).1 in
      (by : Member) × (t : Member) × (get_member room caller db.members ≡ some by)
      × (get_member room target db.members ≡ some t)
      × (t.role ≢ owner)
      × ((by.role ≡ owner) ⊎ ((by.role ≡ moderator) × (t.role <ℤ moderator)))
      × (has_member room target after.members ≡ false)
      × ((r u : String)
          → (has_member r u db.members ≡ false)
            ⊎ ((str_eq r room && str_eq u target) ≡ true)
            ⊎ (has_member r u after.members ≡ true))
unfolding kick_member kick_body in_tx remove
kick_member-outcome caller room target db answer h =
    elim (Option-cases (get_member room caller db.members)) [
      | inl stranger ↦ absurd (ground (arith, stranger, h))
      | inr (by, known) ↦ elim (Option-cases (get_member room target db.members)) [
        | inl outside ↦ absurd (ground (arith, known, outside, h))
        | inr (t, inside) ↦ elim (Bool-cases (can_kick by.role t.role)) [
          | inr may_not ↦ absurd (ground (arith, known, inside, may_not, h))
          | inl may ↦
              let (not_owner, rank) = can_kick_lem by.role t.role may in
              (
                by,
                t,
                known,
                inside,
                not_owner,
                rank,
                rw (known, inside, may) (deleted room target db.members),
                rw (known, inside, may) (others room target db.members),
              )
        ]
      ]
    ]

-- A member of a full room who joins it again is refused, although nothing would change.
pub rejoin_full :
    (s : Subject) (now : ℤ) (room code : String) (db : Db) (r : Room)
    → get_room room db.rooms ≡ some r
    → admitted now code room r db ≡ true
    → is_full r ≡ true
    → room ≢ ""
    → pos 2 ≤ℤ s.system_role
    → join_room s now room code db ≡ (err room_full, db)
unfolding join_room join_body in_tx
rejoin_full s now room code db r found let_in crowded named user =
    ground (arith, found, let_in, crowded, eq_iff room "")

get-role_self :
    (room user : String) (role : ℤ) (ms : List Member) (m : Member)
    → get_member room user ms ≡ some m
    → get_member room user (update_role room user role ms) ≡ some (record m { role = wrap16 role })
unfolding get_member update_role
get-role_self room user role [] m h = absurd (cc)
get-role_self room user role (x ∷ ms) m h = ground (arith, get-role_self room user role ms m, h)

get-role_other :
    (room user other : String) (role : ℤ) (ms : List Member) (m : Member)
    → get_member room other ms ≡ some m
    → other ≢ user
    → get_member room other (update_role room user role ms) ≡ some m
unfolding get_member update_role
get-role_other room user other role [] m h n = absurd (cc)
get-role_other room user other role (x ∷ ms) m h n = ground (
  arith,
  get-role_other room user other role ms m,
  h,
  eq_iff x.user_id user,
  eq_iff x.user_id other,
)

demote_eq :
    (boss room : String) (db : Db) (b : Member)
    → get_member room boss db.members ≡ some b
    → b.role ≡ owner
    → update_member_role boss room boss member db ≡ (
      ok (record b { role = member }),
      record db { members = update_role room boss member db.members },
    )
unfolding update_member_role promote_body in_tx can_promote
demote_eq boss room db b found high = rw (found, high) (rw found refl)

-- The owner's row can lose the owner's role, by the owner's own request, and then a moderator can
-- kick the owner out of the room.
pub owner_demoted :
    (boss helper room : String) (db : Db) (b m : Member)
    → get_member room boss db.members ≡ some b
    → b.role ≡ owner
    → get_member room helper db.members ≡ some m
    → m.role ≡ moderator
    → helper ≢ boss
    → let demoted = (update_member_role boss room boss member db).1 in
      has_member room boss (kick_member helper room boss demoted).1.members ≡ false
unfolding update_member_role promote_body kick_member kick_body in_tx remove can_promote can_kick
    wrap16
owner_demoted boss helper room db b m found high helps mid other =
    rw (demote_eq boss room db b found high) (
      rw
        (
          get-role_other room boss helper member db.members m helps other,
          get-role_self room boss member db.members b found,
          mid,
        )
        (deleted room boss (update_role room boss member db.members)))
