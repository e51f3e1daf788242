-- ===== src/Users/Edits.antt =====
-- What events and updates may do to a profile.
use vibe_sync.Base.{
  ◌≡◌, refl, ap, Option-cases, ◌∙◌, Bool, true, false, not, ◌&&◌, Bool-cases, inl, inr, Option,
  some, none, is_some, String, str_eq, eq_iff, ℤ, List, [], ◌∷◌, arith,
}
use vibe_sync.RoomService.Model.{Name}
use vibe_sync.RoomService.Lifecycle.{Subject}
use vibe_sync.Users.Profiles.{
  Profile, UserCreatedV1, Rules, get_by_id, put_row, upsert, stored, project_from_event,
  handle_user_created, update_row, is_administrator, updated, apply_update, update_user,
}

-- What happens to the table.
pub data UserStep : Type 0 where
  created : Option UserCreatedV1 → ℤ → UserStep
  edited : Subject → String → Option Name → Option Name → ℤ → UserStep

unfoldable pub user_step : Rules → UserStep → List Profile → List Profile
user_step rules (created e now) table = (handle_user_created rules e now table).1
user_step rules (edited s id display avatar now) table =
    (update_user s id display avatar now table).1

unfoldable pub user_run : Rules → List UserStep → List Profile → List Profile
user_run rules [] table = table
user_run rules (x ∷ xs) table = user_run rules xs (user_step rules x table)

-- The fields that belong to the profile's owner.
abbrev pub own_fields : Option Profile → Option (Name × (Name × ℤ))
own_fields none = none
own_fields (some u) = some (u.display_name, (u.avatar_url, u.created_at))

-- The caller is neither this user nor an administrator.
abbrev pub is_stranger : String → UserStep → Bool
is_stranger id (created e now) = true
is_stranger id (edited s target display avatar now) =
    not (str_eq s.user_id id) && not (is_administrator s)

abbrev pub only_strangers : String → List UserStep → Bool
only_strangers id [] = true
only_strangers id (x ∷ xs) = is_stranger id x && only_strangers id xs

put_row-own :
    (n : Profile) (id : String) (table : List Profile)
    → is_some (get_by_id id table) ≡ true
    → own_fields (get_by_id id (put_row n table)) ≡ own_fields (get_by_id id table)
unfolding get_by_id put_row
put_row-own n id [] h = cc
put_row-own n id (u ∷ us) h = elim (Bool-cases (str_eq u.id id)) [
  | inl t ↦ ground (arith, t)
  | inr f ↦ ground (arith, f, put_row-own n id us (ground arith))
]

update_row-other :
    (n : Profile) (id : String) (table : List Profile)
    → str_eq n.id id ≡ false
    → get_by_id id (update_row n table) ≡ get_by_id id table
unfolding get_by_id update_row
update_row-other n id [] h = refl
update_row-other n id (u ∷ us) h =
    ground (arith, update_row-other n id us h, eq_iff u.id n.id, eq_iff u.id id, eq_iff n.id id)

stored-own :
    (rules : Rules) (n : Profile) (id : String) (table : List Profile)
    → is_some (get_by_id id table) ≡ true
    → own_fields (get_by_id id (stored (upsert rules n table) table).1)
      ≡ own_fields (get_by_id id table)
unfolding upsert
stored-own rules n id table h = ground (arith, put_row-own n id table h)

still_there :
    (a b : Option Profile) → own_fields a ≡ own_fields b → is_some b ≡ true → is_some a ≡ true
still_there none none e h = h
still_there none (some u) e h = cc
still_there (some u) b e h = refl

created-own :
    (rules : Rules) (e : Option UserCreatedV1) (now : ℤ) (id : String) (table : List Profile)
    → is_some (get_by_id id table) ≡ true
    → own_fields (get_by_id id (handle_user_created rules e now table).1)
      ≡ own_fields (get_by_id id table)
unfolding handle_user_created
created-own rules none now id table h = refl
created-own rules (some e) now id table h = elim (Option-cases (project_from_event rules e now)) [
  | inl n ↦ rw n refl
  | inr (u, p) ↦ rw p (stored-own rules u id table h)
]

get_by_id-id :
    (id : String) (table : List Profile) (u : Profile) → get_by_id id table ≡ some u → u.id ≡ id
unfolding get_by_id
get_by_id-id id [] u h = cc
get_by_id-id id (v ∷ vs) u h = elim (Bool-cases (str_eq v.id id)) [
  | inl t ↦ ground (arith, eq_iff v.id id, h)
  | inr f ↦ get_by_id-id id vs u (ground (arith, f, h))
]

apply_update-id :
    (now : ℤ) (display avatar : Option Name) (u : Profile)
    → (apply_update now display avatar u).id ≡ u.id
unfolding apply_update
apply_update-id now display avatar u = ground arith

edited-other :
    (id target : String) (display avatar : Option Name) (now : ℤ) (table : List Profile)
    → str_eq target id ≡ false
    → get_by_id id (updated now display avatar (get_by_id target table) table).1
      ≡ get_by_id id table
edited-other id target display avatar now table n = elim (Option-cases (get_by_id target table)) [
  | inl e ↦ rw e refl
  | inr (u, e) ↦
      let after = apply_update now display avatar u in
      let at : after.id ≡ target =
        apply_update-id now display avatar u ∙ get_by_id-id target table u e in
      rw e
        (update_row-other after id table (ground (arith, at, eq_iff after.id id, eq_iff target id)))
]

edited-own :
    (s : Subject) (id target : String) (display avatar : Option Name) (now : ℤ)
    (table : List Profile)
    → not (str_eq s.user_id id) && not (is_administrator s) ≡ true
    → get_by_id id (update_user s target display avatar now table).1 ≡ get_by_id id table
unfolding update_user
edited-own s id target display avatar now table h = elim (Bool-cases (str_eq target id)) [
  | inl t ↦ ground (arith, t, eq_iff target id, eq_iff s.user_id id, eq_iff s.user_id target)
  | inr f ↦ ground (arith, edited-other id target display avatar now table f)
]

-- Whatever events arrive, redeliveries included, and whatever users other than the profile's owner
-- and the administrators ask for, the display name, the avatar and the creation time of a profile
-- that is there stay as they are.
pub user_run-own :
    (rules : Rules) (xs : List UserStep) (id : String) (table : List Profile)
    → is_some (get_by_id id table) ≡ true
    → only_strangers id xs ≡ true
    → own_fields (get_by_id id (user_run rules xs table)) ≡ own_fields (get_by_id id table)
unfolding user_run user_step
user_run-own rules [] id table h o = refl
user_run-own rules (created e now ∷ xs) id table h o =
    let step = created-own rules e now id table h in
    user_run-own rules xs id _ (still_there _ _ step h) o ∙ step
user_run-own rules (edited s target display avatar now ∷ xs) id table h o =
    let step = edited-own s id target display avatar now table (ground arith) in
    user_run-own rules xs id _ (rw step h) (ground arith) ∙ ap own_fields step
