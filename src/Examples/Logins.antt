-- ===== src/Examples/Logins.antt =====
-- An example on a login.
use vibe_sync.Base.{
  ◌≡◌, refl, true, Bool, Option, some, String, str_eq, ℤ, pos, List, [], ◌∷◌, ◌++◌,
}
use vibe_sync.Auth.Tokens.{Text, text_eq, UserStatus, can_login, RefreshToken, Hasher}
use vibe_sync.Auth.Store.{Session, User, Db, Result, ok, err}
use vibe_sync.Auth.Login.{LoginDraws, get_by_email, has_password, login}
use vibe_sync.Auth.Login.Grants.{login_grants}

abbrev plain : Hasher
plain = record { hash = λ v. some "hash"; compare = λ h v. str_eq h "hash" }

abbrev ann_email : Text
ann_email = 97 ∷ 64 ∷ 98 ∷ []

abbrev ann : User
ann = record {
  id = "u1";
  email = ann_email;
  username = 97 ∷ [];
  display_name = 65 ∷ [];
  avatar_url = [];
  password_hash = "hash";
  system_role = pos 2;
  status = UserStatus.active;
  created_at = pos 1;
  updated_at = pos 1;
}

abbrev one_user : Db
one_user = record {
  tokens = [];
  users = ("u1", ann) ∷ [];
  sessions = [];
  flows = [];
  accounts = [];
  provider_tokens = [];
  outbox = [];
}

abbrev draws : LoginDraws
draws = record {
  now = pos 50;
  session_id = "s1";
  family_id = "f1";
  token_id = "t1";
  selector_draw = some (1 ∷ []);
  validator_draw = some (2 ∷ []);
  access_token = λ u. some "signed";
  same_email = λ a b. text_eq a b;
}

abbrev password : Text
password = 7 ∷ []

abbrev session : Session
session = record {
  id = "s1";
  user_id = "u1";
  device_label = "phone";
  family_id = "f1";
  created_at = pos 50;
  last_seen_at = pos 50;
  expires_at = pos 150;
}

abbrev after : Db
after = (login plain (pos 100) (pos 10) ann_email password "phone" draws one_user).1

login_grants_example :
    (u : User) × (get_by_email draws.same_email ann_email one_user.users ≡ some u)
    × (has_password u ≡ true)
    × (plain.compare u.password_hash password ≡ true)
    × (can_login u.status ≡ true)
    × ((row : RefreshToken) × (after.tokens ≡ one_user.tokens ++ row ∷ [])
        × (row.user_id ≡ u.id)
        × (row.session_id ≡ session.id)
        × (row.family_id ≡ session.family_id)
        × (session.user_id ≡ u.id))
unfolding login vibe_sync.Auth.Store.with_tx vibe_sync.Auth.Login.login_body get_by_email
    vibe_sync.Auth.Login.login_user vibe_sync.Auth.Login.issue_session_for_user
    vibe_sync.Auth.Store.create_session vibe_sync.Auth.Tokens.new_refresh_token
    vibe_sync.Auth.Store.create_token vibe_sync.Auth.Store.conflicts
    vibe_sync.Auth.Login.new_session vibe_sync.Base.◌+ℤ◌ vibe_sync.Auth.Tokens.text_eq
login_grants_example =
    login_grants plain (pos 100) (pos 10) ann_email password "phone" draws one_user after session _
      refl
