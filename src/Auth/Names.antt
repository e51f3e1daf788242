-- ===== src/Auth/Names.antt =====
-- The checks of apps/auth-service/internal/domain/user.go, and the username that
-- internal/app/oauth.go derives. A text is the list of its code points: the derivation works on
-- bytes in the source, where the bytes of one character beyond ASCII act like that one character.
pub mod Derived
pub mod Loops
use vibe_sync.Base.{
  ℕ, ◌+◌, ltb, leb, ◌==◌, Bool, true, false, not, ◌&&◌, ◌||◌, [], ◌∷◌, ◌++◌, length, ℤ, pos,
  if◌then◌else◌,
}
use vibe_sync.RoomService.Model.{trim_space, byte_length}
use vibe_sync.Auth.Tokens.{Text, UserStatus}
use vibe_sync.Auth.Store.{User, UserError, email_invalid, username_invalid, display_name_too_long}

abbrev pub is_lower : ℕ → Bool
is_lower c = leb b'a' c && leb c b'z'

abbrev pub is_digit : ℕ → Bool
is_digit c = leb b'0' c && leb c b'9'

abbrev pub is_upper : ℕ → Bool
is_upper c = leb b'A' c && leb c b'Z'

abbrev pub is_word : ℕ → Bool
is_word c = is_lower c || (is_digit c || c == b'_')

unfoldable pub all_word : Text → Bool
all_word [] = true
all_word (c ∷ cs) = is_word c && all_word cs

-- `usernameRe`: ^[a-z][a-z0-9_]{2,31}$
unfoldable pub is_username : Text → Bool
unfolding all_word
is_username [] = false
is_username (c ∷ cs) = is_lower c && (all_word cs && (leb 2 (length cs) && leb (length cs) 31))

-- `[^\s@]`
email_char : ℕ → Bool
email_char c = not (c == 9 || (c == 10 || (c == 12 || (c == 13 || (c == 32 || c == b'@')))))

all_email_chars : Text → Bool
all_email_chars [] = true
all_email_chars (c ∷ cs) = email_char c && all_email_chars cs

-- A dot with something after it.
dot_inside : Text → Bool
dot_inside [] = false
dot_inside (c ∷ []) = false
dot_inside (c ∷ d ∷ ds) = c == b'.' || dot_inside (d ∷ ds)

is_domain : Text → Bool
is_domain [] = false
is_domain (c ∷ cs) = all_email_chars (c ∷ cs) && dot_inside cs

after_local : Text → Bool
after_local [] = false
after_local (c ∷ cs) =
    let rest = after_local cs in if c == b'@' then is_domain cs else email_char c && rest

-- `emailRe`: ^[^\s@]+@[^\s@]+\.[^\s@]+$
unfoldable pub is_email : Text → Bool
unfolding email_char all_email_chars dot_inside is_domain after_local
is_email [] = false
is_email (c ∷ cs) = email_char c && after_local cs

pub record NewUserParams : Type 0 where
  pub email : Text
  pub username : Text
  pub display_name : Text
  pub avatar_url : Text

pub data NewUser : Type 0 where
  refused : UserError → NewUser
  fine : User → NewUser

abbrev pub or_name : Text → Text → Text
or_name [] username = username
or_name (c ∷ cs) username = c ∷ cs

-- `NewUser`, with strings.ToLower as an argument; the caller sets the id.
unfoldable pub new_user : (Text → Text) → ℤ → NewUserParams → NewUser
new_user lower now p =
    let email = trim_space (lower p.email) in
    let username = trim_space (lower p.username) in
    let display = trim_space p.display_name in
    if not (is_email email)
    then refused email_invalid
    else if not (is_username username)
    then refused username_invalid
    else if ltb 100 (byte_length display)
    then refused display_name_too_long
    else fine (record {
      id = "";
      email = email;
      username = username;
      display_name = or_name display username;
      avatar_url = trim_space p.avatar_url;
      password_hash = "";
      system_role = pos 2;
      status = UserStatus.active;
      created_at = now;
      updated_at = now;
    })

unfoldable pub local_part : Text → Text
local_part [] = []
local_part (c ∷ cs) = let rest = local_part cs in if c == b'@' then [] else c ∷ rest

abbrev pub ends_in_underscore : Text → Bool
ends_in_underscore [] = false
ends_in_underscore (c ∷ []) = c == b'_'
ends_in_underscore (c ∷ d ∷ ds) = ends_in_underscore (d ∷ ds)

abbrev no_text : Text → Bool
no_text [] = true
no_text (c ∷ cs) = false

-- The `switch` on one character.
unfoldable pub add_cleaned : ℕ → Text → Text
add_cleaned c out =
    if is_lower c
    then out ++ (c ∷ [])
    else if is_upper c
    then out ++ ((c + 32) ∷ [])
    else if is_digit c || c == b'_'
    then out ++ (c ∷ [])
    else if no_text out || ends_in_underscore out
    then out
    else out ++ (b'_' ∷ [])

unfoldable pub clean : Text → Text → Text
unfolding add_cleaned
clean [] out = out
clean (c ∷ cs) out =
    let next = add_cleaned c out in
    let rest = clean cs next in if leb 32 (length next) then next else rest

unfoldable pub trim_front : Text → Text
trim_front [] = []
trim_front (c ∷ cs) = let rest = trim_front cs in if c == b'_' then rest else c ∷ cs

unfoldable pub trim_back : Text → Text
trim_back [] = []
trim_back (c ∷ cs) = elim (trim_back cs) [
  | [] ↦ (if c == b'_' then [] else c ∷ [])
  | d ∷ ds ↦ c ∷ d ∷ ds
]

unfoldable pub trim_underscores : Text → Text
unfolding trim_front trim_back
trim_underscores b = trim_back (trim_front b)

unfoldable pub sanitized : Text → Text
unfolding clean trim_underscores
sanitized email = trim_underscores (clean (local_part email) [])

unfoldable pub with_letter : Text → Text → Text
with_letter local [] = local
with_letter local (c ∷ cs) =
    if ltb (length (c ∷ cs)) 3 then local else if is_lower c then c ∷ cs else b'u' ∷ c ∷ cs

-- From the email of the profile.
unfoldable pub derive_username : Text → Text
unfolding sanitized with_letter local_part
derive_username [] = []
derive_username (c ∷ cs) = with_letter (local_part (c ∷ cs)) (sanitized (c ∷ cs))
