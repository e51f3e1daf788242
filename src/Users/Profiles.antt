-- ===== src/Users/Profiles.antt =====
-- apps/user-service: internal/domain/user.go, internal/infra/postgres/user_repo.go, and the
-- requests and the consumer of internal/app. Letter case, times of RFC 3339 and the comparisons of
-- Postgres are arguments.
use vibe_sync.Base.{
  ℕ, zero, suc, ltb, ◌==◌, Bool, true, false, not, ◌&&◌, ◌||◌, Option, none, some, String, str_eq,
  ℤ, pos, ltb_ℤ, List, [], ◌∷◌, select, if◌then◌else◌,
}
use vibe_sync.RoomService.Model.{Name, name_eq, trim_space}
use vibe_sync.RoomService.Lifecycle.{Subject}

pub record Profile : Type 0 where
  pub id : String
  pub email : Name
  pub username : Name
  pub display_name : Name
  pub avatar_url : Name
  pub system_role : ℤ
  pub created_at : ℤ
  pub updated_at : ℤ

pub record UserCreatedV1 : Type 0 where
  pub user_id : String
  pub email : Name
  pub username : Name
  pub created_at : Name

-- strings.ToLower, time.Parse with RFC3339, the equality of CITEXT, and `<` on CHAR(26).
pub record Rules : Type 0 where
  pub lower : Name → Name
  pub parse : Name → Option ℤ
  pub same_email : Name → Name → Bool
  pub less : String → String → Bool

abbrev empty : Name → Bool
empty [] = true
empty (c ∷ cs) = false

abbrev or_fallback : Option ℤ → ℤ → ℤ
or_fallback none now = now
or_fallback (some t) now = t

unfoldable pub parse_rfc3339 : Rules → Name → ℤ → ℤ
parse_rfc3339 rules s fallback =
    let t = trim_space s in if empty t then fallback else or_fallback (rules.parse t) fallback

-- `none` is ErrInvalidEvent.
unfoldable pub project_from_event : Rules → UserCreatedV1 → ℤ → Option Profile
project_from_event rules e now =
    let created = parse_rfc3339 rules e.created_at now in
    let username = rules.lower (trim_space e.username) in
    if str_eq e.user_id "" || (empty e.email || empty e.username)
    then none
    else some (record {
      id = e.user_id;
      email = rules.lower (trim_space e.email);
      username = username;
      display_name = username;
      avatar_url = [];
      system_role = pos 2;
      created_at = created;
      updated_at = created;
    })

abbrev set_display : Option Name → Profile → Profile
set_display none u = u
set_display (some n) u =
    let t = trim_space n in if empty t then u else record u { display_name = t }

abbrev set_avatar : Option Name → Profile → Profile
set_avatar none u = u
set_avatar (some n) u = record u { avatar_url = trim_space n }

unfoldable pub apply_update : ℤ → Option Name → Option Name → Profile → Profile
apply_update now display avatar u = record (set_avatar avatar (set_display display u)) {
  updated_at = now;
}

unfoldable pub get_by_id : String → List Profile → Option Profile
get_by_id id [] = none
get_by_id id (u ∷ us) = if str_eq u.id id then some u else get_by_id id us

-- Another row has the email or the username, which are unique.
unfoldable pub clashes : Rules → Profile → List Profile → Bool
clashes rules n [] = false
clashes rules n (u ∷ us) =
    (not (str_eq u.id n.id) && (rules.same_email u.email n.email || name_eq u.username n.username))
    || clashes rules n us

-- ON CONFLICT (id): the profile's own fields stay.
unfoldable pub put_row : Profile → List Profile → List Profile
put_row n [] = n ∷ []
put_row n (u ∷ us) =
    let rest = put_row n us in
    let kept = record u {
      email = n.email;
      username = n.username;
      system_role = n.system_role;
      updated_at = n.updated_at;
    } in
    if str_eq u.id n.id then kept ∷ us else u ∷ rest

unfoldable pub upsert : Rules → Profile → List Profile → Option (List Profile)
upsert rules n table = if clashes rules n table then none else some (put_row n table)

abbrev pub stored : Option (List Profile) → List Profile → Bool × List Profile
stored none table = (false, table)
stored (some after) table = (true, after)

abbrev project_row : Rules → Option Profile → List Profile → Bool × List Profile
project_row rules none table = (true, table)
project_row rules (some u) table = stored (upsert rules u table) table

-- The handler of user.created.v1: whether it returns nil. `none` is a payload that cannot be read.
unfoldable pub handle_user_created :
    Rules → Option UserCreatedV1 → ℤ → List Profile → Bool × List Profile
handle_user_created rules none now table = (true, table)
handle_user_created rules (some e) now table =
    project_row rules (project_from_event rules e now) table

pub data UserError : Type 0 where
  missing_id permission_denied no_user : UserError

pub data Result {ℓ} (A : Type ℓ) : Type ℓ where
  ok : A → Result A
  err : UserError → Result A

abbrev or_no_user : Option Profile → Result Profile
or_no_user none = err no_user
or_no_user (some u) = ok u

unfoldable pub get_user : String → List Profile → Result Profile
get_user id table = if str_eq id "" then err missing_id else or_no_user (get_by_id id table)

-- The columns that UPDATE writes.
unfoldable pub update_row : Profile → List Profile → List Profile
update_row n [] = []
update_row n (u ∷ us) =
    (if str_eq u.id n.id
      then record u {
        display_name = n.display_name;
        avatar_url = n.avatar_url;
        updated_at = n.updated_at;
      }
      else u)
    ∷ update_row n us

-- SYSTEM_ROLE_ADMINISTRATOR
abbrev pub is_administrator : Subject → Bool
is_administrator s = not (ltb_ℤ s.system_role (pos 4))

abbrev pub updated :
    ℤ → Option Name → Option Name → Option Profile → List Profile → Result Profile × List Profile
updated now display avatar none table = (err no_user, table)
updated now display avatar (some u) table =
    let after = apply_update now display avatar u in (ok after, update_row after table)

unfoldable pub update_user :
    Subject → String → Option Name → Option Name → ℤ → List Profile → Result Profile × List Profile
update_user s id display avatar now table =
    let done = updated now display avatar (get_by_id id table) table in
    if str_eq id ""
    then (err missing_id, table)
    else if not (str_eq s.user_id id) && not (is_administrator s)
    then (err permission_denied, table)
    else done

abbrev pub take : ℕ → List Profile → List Profile
take zero us = []
take (suc n) [] = []
take (suc n) (u ∷ us) = u ∷ take n us

-- ORDER BY created_at DESC
abbrev pub place : Profile → List Profile → List Profile
place u [] = u ∷ []
place u (x ∷ xs) =
    let rest = place u xs in if ltb_ℤ u.created_at x.created_at then x ∷ rest else u ∷ x ∷ xs

abbrev pub newest_first : List Profile → List Profile
newest_first [] = []
newest_first (u ∷ us) = place u (newest_first us)

abbrev pub page_size : ℕ → ℕ
page_size n = if n == 0 || ltb 200 n then 50 else n

abbrev pub wanted : Rules → String → (Profile → Bool) → Profile → Bool
wanted rules cursor found u = found u && (str_eq cursor "" || rules.less u.id cursor)

-- The id of the first row after so many.
abbrev pub id_at : ℕ → List Profile → String
id_at n [] = ""
id_at zero (u ∷ us) = u.id
id_at (suc n) (u ∷ us) = id_at n us

-- `found` is the search: ILIKE on the username, or true without one.
unfoldable pub list : Rules → String → ℕ → (Profile → Bool) → List Profile → List Profile × String
list rules cursor limit found table =
    let size = page_size limit in
    let rows = take (suc size) (newest_first (select (wanted rules cursor found) table)) in
    (take size rows, id_at size rows)

unfoldable pub list_users :
    Rules → Subject → String → ℕ → (Profile → Bool) → List Profile → Result (List Profile × String)
list_users rules s cursor limit found table =
    if is_administrator s then ok (list rules cursor limit found table) else err permission_denied
