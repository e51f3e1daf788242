-- ===== src/RoomService/Grants.antt =====
-- The bitmask of a member's grants, and what the service tells about it.
use vibe_sync.RoomService.Membership.{
  granted_row, grant_permissions, grant_body, get_member_permissions,
}
use vibe_sync.Base.{
  ℕ, ◌≡◌, refl, Bool, false, ◌&&◌, ◌||◌, Bool-cases, Option-cases, some, inl, inr, String, str_eq,
  eq_iff, eq_refl, ◌==◌, leb, List, [], ◌∷◌, arith,
}
use vibe_sync.RoomService.Tables.{Grant, Db, get_room, get_member, set_grant, get_grant}
use vibe_sync.RoomService.Model.{
  Room, perm_by_proto, has_bit, set_bit, permissions_from_proto, to_proto,
}
use vibe_sync.RoomService.Transaction.{ok, in_tx}

set_bit_lem :
    (p v w : ℕ)
    → has_bit (set_bit p (perm_by_proto w)) (perm_by_proto v)
      ≡ (has_bit p (perm_by_proto v) || (leb 1 v && (leb v 5 && v == w)))
unfolding perm_by_proto
set_bit_lem p v w = ground arith

bit_lem : (v : ℕ) → has_bit 0 (perm_by_proto v) ≡ false
unfolding perm_by_proto
bit_lem v = ground arith

-- The numbers that a list names.
unfoldable pub names : ℕ → List ℕ → Bool
names v [] = false
names v (w ∷ ws) = w == v || names v ws

from_proto_lem :
    (v : ℕ) (ws : List ℕ) (p : ℕ)
    → has_bit (permissions_from_proto ws p) (perm_by_proto v)
      ≡ (has_bit p (perm_by_proto v) || (leb 1 v && (leb v 5 && names v ws)))
unfolding permissions_from_proto names
from_proto_lem v [] p = ground arith
from_proto_lem v (w ∷ ws) p =
    ground (arith, from_proto_lem v ws (set_bit p (perm_by_proto w)), set_bit_lem p v w)

to_proto_lem :
    (v p : ℕ) → names v (to_proto p) ≡ (leb 1 v && (leb v 5 && has_bit p (perm_by_proto v)))
unfolding to_proto names perm_by_proto
to_proto_lem v p = ground arith

-- The bitmask loses nothing but repetitions and the numbers that name no permission.
pub to_proto-from_proto :
    (v : ℕ) (ws : List ℕ)
    → names v (to_proto (permissions_from_proto ws 0)) ≡ (leb 1 v && (leb v 5 && names v ws))
to_proto-from_proto v ws =
    ground (arith, to_proto_lem v (permissions_from_proto ws 0), from_proto_lem v ws 0, bit_lem v)

get-set :
    (n : Grant) (gs : List Grant) → get_grant n.room_id n.user_id (set_grant n gs) ≡ n.permissions
unfolding get_grant set_grant
get-set n [] = ground (arith, eq_refl n.room_id, eq_refl n.user_id)
get-set n (g ∷ gs) = ground (arith, get-set n gs, eq_refl n.room_id, eq_refl n.user_id)

told_grants :
    (room target : String) (perms : ℕ) (db : Db) (r : Room)
    → get_room room db.rooms ≡ some r
    → str_eq r.owner_id target ≡ false
    → (get_member_permissions room target (granted_row room target perms db)).0
      ≡ ok (to_proto perms, false)
unfolding get_member_permissions in_tx
told_grants room target perms db r found other =
    rw
      (
        found,
        get-set (record { room_id = room; user_id = target; permissions = perms }) db.grants,
        other,
      )
      refl

-- What the owner granted to a member is what the service tells about the member from then on.
pub grant-get :
    (caller room target : String) (wanted answer : List ℕ) (db : Db)
    → (grant_permissions caller room target wanted db).0 ≡ ok answer
    → (get_member_permissions room target (grant_permissions caller room target wanted db).1).0
      ≡ ok (answer, false)
unfolding grant_permissions grant_body get_member_permissions in_tx
grant-get caller room target wanted answer db h = elim (Option-cases (get_room room db.rooms)) [
  | inl missing ↦ absurd (ground (arith, missing, h))
  | inr (r, found) ↦ elim (Bool-cases (str_eq r.owner_id caller)) [
    | inr other ↦ absurd (ground (arith, found, other, h))
    | inl owns ↦ elim (Bool-cases (str_eq target caller)) [
      | inl itself ↦ absurd (ground (arith, found, owns, itself, h))
      | inr somebody ↦ elim (Option-cases (get_member room target db.members)) [
        | inl outside ↦ absurd (ground (arith, found, owns, somebody, outside, h))
        | inr (t, inside) ↦
            let perms = permissions_from_proto wanted 0 in
            let stored : Db = granted_row room target perms db in
            let given : grant_permissions caller room target wanted db
                ≡ (ok (to_proto perms), stored) =
              rw (found, owns, somebody, inside) refl in
            let told : answer ≡ to_proto perms = ground (arith, given, h) in
            rw (given, told)
              (told_grants room target perms db r found (
                ground (
                  arith,
                  eq_iff r.owner_id caller,
                  eq_iff r.owner_id target,
                  eq_iff target caller,
                )))
      ]
    ]
  ]
]
