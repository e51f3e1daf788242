-- ===== src/Examples/Users.antt =====
-- Examples on users.
use mathlib.Core.List.{Memᴰ}
use vibe_sync.Base.{
  ◌≡◌, ◌≢◌, refl, true, false, not, none, some, String, str_eq, ℤ, pos, List, [], ◌∷◌, All, eq_refl,
  arith,
}
use vibe_sync.Examples.Data.{differ}
use vibe_sync.Users.Profiles.{Profile, Rules, UserCreatedV1, get_by_id, list}
use vibe_sync.RoomService.Lifecycle.{Subject}
use vibe_sync.Users.Edits.{UserStep, created, edited, user_run, own_fields, user_run-own}
use vibe_sync.Users.Paging.{page_skips}

-- An order in which every other id is less; the ids of the example are all distinct.
abbrev rules : Rules
rules = record {
  lower = λ n. n;
  parse = λ n. none;
  same_email = λ a b. false;
  less = λ a b. not (str_eq a b);
}

abbrev user : String → ℤ → Profile
user id at = record {
  id = id;
  email = [];
  username = [];
  display_name = [];
  avatar_url = [];
  system_role = pos 2;
  created_at = at;
  updated_at = at;
}

abbrev table : List Profile
table = user "u1" (pos 1) ∷ user "u2" (pos 2) ∷ user "u3" (pos 3) ∷ []

page_skips_example :
    let (first, next) = list rules "" 1 (λ u. true) table in
    ((r : Profile) × Memᴰ r table × (true ≡ true) × (r.id ≡ next))
    × All (λ (v : Profile). v.id ≢ next) first
    × All (λ (v : Profile). v.id ≢ next) (list rules next 5 (λ u. true) table).0
unfolding list
page_skips_example =
    page_skips rules "" 1 (λ u. true) table 5 (λ u. true) (λ id. ground (arith, eq_refl id))
      (
        (differ "u2" "u1" refl, (differ "u3" "u1" refl, tt)),
        ((differ "u3" "u2" refl, tt), (tt, tt)),
      )
      (differ "u2" "" refl)

abbrev event : UserCreatedV1
event = record { user_id = "u1"; email = 97 ∷ []; username = 98 ∷ []; created_at = [] }

abbrev stranger : Subject
stranger = record { user_id = "u2"; system_role = pos 2 }

abbrev steps : List UserStep
steps = created (some event) (pos 9) ∷ edited stranger "u1" (some (99 ∷ [])) none (pos 10) ∷ []

user_run-own_example :
    own_fields (get_by_id "u1" (user_run rules steps table)) ≡ own_fields (get_by_id "u1" table)
unfolding get_by_id
user_run-own_example = user_run-own rules steps "u1" table refl refl
