-- ===== src/Examples/Accounts.antt =====
-- Examples on registrations and sessions.
use vibe_sync.Auth.Refresh.{Request, issue, refresh_token}
use vibe_sync.Auth.Tokens.{RefreshToken}
use vibe_sync.Auth.Login.Refreshes.{issued_refreshes}
use vibe_sync.Auth.Names.Loops.{trim_loops, trim_loops_end}
use vibe_sync.Auth.Names.{trim_underscores}
use vibe_sync.Base.{
  ◌≡◌, refl, subst, ◌⊎◌, inl, inr, true, false, ◌||◌, Option, some, String, str_eq, ℤ, pos, List,
  [], ◌∷◌, ◌++◌, length, ltb, arith,
}
use vibe_sync.RoomService.Model.{trim_space}
use vibe_sync.Auth.Tokens.{Text, text_eq, UserStatus, Hasher}
use vibe_sync.Auth.Tokens.Wire.{text_eq_iff}
use vibe_sync.Auth.Store.{Session, User, Db, Result, ok, err, user_exists, with_tx}
use vibe_sync.Auth.Refresh.{Tokens}
use vibe_sync.Auth.Login.{LoginDraws, issue_session_for_user, login}
use vibe_sync.Auth.Names.{sanitized, derive_username, is_username}
use vibe_sync.Auth.Names.Derived.{starts_lower, derived_name_accepted}
use vibe_sync.Auth.Register.{RegisterDraws, register}
use vibe_sync.Auth.Register.Login.{IsSameText, IsHasher, register-login}

abbrev plain : Hasher
plain = record { hash = λ v. some "hash"; compare = λ h v. str_eq h "hash" }

only_hash : (h : String) → plain.hash [] ≡ some h → "hash" ≡ h
only_hash h e = cc e

plain_laws : IsHasher plain
plain_laws = record {
  hash_matches = λ v h e. subst (λ (x : String). str_eq x "hash" ≡ true) (only_hash h e) refl;
  hash_filled = λ v h e. subst (λ (x : String). str_eq x "" ≡ false) (only_hash h e) refl;
}

text_eq_laws : IsSameText text_eq
text_eq_laws = record {
  same_refl = λ a. (text_eq_iff a a).1 refl;
  same_right = λ a b c e. rw ((text_eq_iff a b).0 e) refl;
}

-- "a@b.c", "ann", and a password of eight characters.
abbrev email : Text
email = b'a' ∷ b'@' ∷ b'b' ∷ b'.' ∷ b'c' ∷ []

abbrev name : Text
name = b'a' ∷ b'n' ∷ b'n' ∷ []

abbrev password : Text
password = 1 ∷ 2 ∷ 3 ∷ 4 ∷ 5 ∷ 6 ∷ 7 ∷ 8 ∷ []

abbrev empty_tables : Db
empty_tables = record {
  tokens = [];
  users = [];
  sessions = [];
  flows = [];
  accounts = [];
  provider_tokens = [];
  outbox = [];
}

abbrev draws : LoginDraws
draws = record {
  now = pos 50;
  session_id = "s1";
  family_id = "f1";
  token_id = "t1";
  selector_draw = some (1 ∷ []);
  validator_draw = some (2 ∷ []);
  access_token = λ u. some "signed";
  same_email = text_eq;
}

abbrev later : LoginDraws
later = record draws { now = pos 60; session_id = "s2"; family_id = "f2"; token_id = "t2" }

abbrev new_draws : RegisterDraws
new_draws = record {
  base = draws;
  set_at = pos 51;
  user_id = "u1";
  outbox_id = "e1";
  lower = λ t. t;
}

abbrev done : Result (Session × Tokens) × Db
done = register plain (pos 100) (pos 10) email name [] password "phone" new_draws empty_tables

abbrev session : Session
session = record {
  id = "s1";
  user_id = "u1";
  device_label = "phone";
  family_id = "f1";
  created_at = pos 50;
  last_seen_at = pos 50;
  expires_at = pos 150;
}

abbrev ann : User
ann = record {
  id = "u1";
  email = email;
  username = name;
  display_name = name;
  avatar_url = [];
  password_hash = "hash";
  system_role = pos 2;
  status = UserStatus.active;
  created_at = pos 50;
  updated_at = pos 51;
}

register-login_example :
    (u : User) × (u.id ≡ session.user_id)
    × (u.email ≡ trim_space email)
    × (login plain (pos 100) (pos 10) email password "desk" later done.1
        ≡ with_tx (issue_session_for_user plain (pos 100) (pos 10) u "desk" later) done.1)
unfolding register trim_space text_eq vibe_sync.Auth.Register.register_body
    vibe_sync.Auth.Register.store_user vibe_sync.Auth.Register.create_user
    vibe_sync.Auth.Register.stage_created vibe_sync.Auth.Register.registered
    vibe_sync.RoomService.Model.byte_length vibe_sync.Auth.Names.new_user
    vibe_sync.Auth.Names.is_email vibe_sync.Auth.Names.is_username with_tx
    vibe_sync.Auth.Login.get_by_email issue_session_for_user vibe_sync.Auth.Store.create_session
    vibe_sync.Auth.Tokens.new_refresh_token vibe_sync.Auth.Store.create_token
    vibe_sync.Auth.Store.conflicts vibe_sync.Auth.Login.new_session vibe_sync.Base.◌+ℤ◌
    vibe_sync.Base.insert vibe_sync.Auth.Tokens.presentation_token
register-login_example =
    register-login plain (pos 100) (pos 10) email name [] password "phone" new_draws empty_tables
      done.1 session (record { access = "signed"; refresh = 1 ∷ b'.' ∷ 2 ∷ [] }) text_eq_laws
      plain_laws refl email "desk" later refl refl refl

abbrev one_user : Db
one_user = record empty_tables { users = ("u1", ann) ∷ [] }

-- "A.n-9@b.c": the name is a_n_9.
abbrev dotted : Text
dotted = b'A' ∷ b'.' ∷ b'n' ∷ b'-' ∷ b'9' ∷ b'@' ∷ b'b' ∷ b'.' ∷ b'c' ∷ []

derived_name_accepted_example :
    is_username (derive_username dotted)
    ≡ (starts_lower (sanitized dotted) || ltb (length (sanitized dotted)) 32)
unfolding sanitized vibe_sync.Auth.Names.local_part
derived_name_accepted_example = derived_name_accepted dotted (omega arith)

-- "__a_b_"
abbrev underscored : Text
underscored = b'_' ∷ b'_' ∷ b'a' ∷ b'_' ∷ b'b' ∷ b'_' ∷ []

trim_loops_end_example : trim_loops 7 underscored ≡ some (trim_underscores underscored)
trim_loops_end_example = trim_loops_end 7 underscored (omega arith)

-- A session of Ann, and the exchange of its token.
abbrev issued : Result (Session × Tokens) × Db
issued = issue_session_for_user plain (pos 100) (pos 10) ann "phone" draws one_user

abbrev exchange : Request
exchange = record {
  now = pos 59;
  new_id = "t2";
  selector_draw = some (3 ∷ []);
  validator_draw = some (4 ∷ []);
  access_token = λ u. some "signed";
}

issued_refreshes_example :
    (row : RefreshToken) × (row.session_id ≡ session.id)
    × (row.user_id ≡ ann.id)
    × (refresh_token plain (pos 10) (1 ∷ b'.' ∷ 2 ∷ []) exchange issued.1
        ≡ with_tx (issue plain (pos 10) row exchange) issued.1)
unfolding issue_session_for_user vibe_sync.Auth.Store.create_session
    vibe_sync.Auth.Tokens.new_refresh_token vibe_sync.Auth.Store.create_token
    vibe_sync.Auth.Store.conflicts vibe_sync.Auth.Login.new_session vibe_sync.Base.◌+ℤ◌
    vibe_sync.Auth.Tokens.presentation_token text_eq vibe_sync.Base.lookup
issued_refreshes_example =
    issued_refreshes plain (pos 100) (pos 10) ann "phone" draws (1 ∷ []) (2 ∷ []) one_user issued.1
      session (record { access = "signed"; refresh = 1 ∷ b'.' ∷ 2 ∷ [] }) exchange plain_laws refl
      refl (refl, tt) (λ e. cc e) (λ e. cc e) refl refl refl refl
