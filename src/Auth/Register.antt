-- ===== src/Auth/Register.antt =====
-- apps/auth-service/internal/app/register.go: registration with a password, and the insertion of
-- users and of user.created.v1. Lengths of columns are not modelled.
pub mod Rows
pub mod Login
pub mod Refusals
use vibe_sync.Base.{
  ◌≡◌, ltb, Bool, true, false, not, ◌&&◌, ◌||◌, Option, none, some, String, str_eq, List, [], ◌∷◌,
  ◌++◌, ℤ, if◌then◌else◌,
}
use vibe_sync.RoomService.Model.{byte_length}
use vibe_sync.Auth.Tokens.{Text, text_eq, Hasher}
use vibe_sync.Auth.Store.{
  Session, User, UserCreated, Db, AuthError, storage_failure, missing_fields, password_too_short,
  password_hash_failed, invalid_fields, user_exists, Result, ok, err, Tx, ◌>>=◌, ◌>>◌, pure, fail,
  with_tx, or_fail,
}
use vibe_sync.Auth.Refresh.{Tokens, guard}
use vibe_sync.Auth.Login.{LoginDraws, get_by_email, empty_text, issue_session_for_user}
use vibe_sync.Auth.Names.{NewUserParams, NewUser, refused, fine, new_user}

-- The primary key and the two unique columns; `same` is the equality of CITEXT.
unfoldable pub user_clash : (Text → Text → Bool) → User → List (String × User) → Bool
user_clash same n [] = false
user_clash same n ((id, u) ∷ us) =
    str_eq id n.id
    || (same u.email n.email || (text_eq u.username n.username || user_clash same n us))

-- A unique violation is answered by the given error.
unfoldable pub create_user : AuthError → (Text → Text → Bool) → User → Tx (Unit {0})
unfolding user_clash
create_user clash same u db =
    if user_clash same u db.users
    then (err clash, db)
    else (ok tt, record db { users = db.users ++ (u.id, u) ∷ [] })

abbrev pub staged_before : String → List UserCreated → Bool
staged_before id [] = false
staged_before id (e ∷ es) = str_eq e.id id || staged_before id es

unfoldable pub stage_created : UserCreated → Tx (Unit {0})
stage_created e db =
    if staged_before e.id db.outbox
    then (err storage_failure, db)
    else (ok tt, record db { outbox = db.outbox ++ e ∷ [] })

-- What a registration draws; `set_at` is the time that SetPassword reads from the system clock.
pub record RegisterDraws : Type 0 where
  pub base : LoginDraws
  pub set_at : ℤ
  pub user_id : String
  pub outbox_id : String
  pub lower : Text → Text

abbrev pub valid_user : NewUser → Tx User
valid_user (refused e) db = (err (invalid_fields e), db)
valid_user (fine u) db = (ok u, db)

abbrev pub no_such_user : Option User → AuthError → Tx (Unit {0})
no_such_user none e = pure tt
no_such_user (some u) e = fail e

-- The row that is written.
unfoldable pub registered : User → String → RegisterDraws → User
registered u hash d = record u { id = d.user_id; password_hash = hash; updated_at = d.set_at }

module _ (hs : Hasher) (session_ttl ttl : ℤ) where
  unfoldable pub store_user : User → String → RegisterDraws → Tx (Session × Tokens)
  unfolding create_user stage_created registered
  store_user u label d = do
    create_user (user_exists u.email) d.base.same_email u
    stage_created (record {
      id = d.outbox_id;
      user_id = u.id;
      email = u.email;
      username = u.username;
      provider = "password";
      created_at = d.base.now;
    })
    issue_session_for_user hs session_ttl ttl u label d.base

  unfoldable pub register_body :
      NewUserParams → Text → String → RegisterDraws → Tx (Session × Tokens)
  register_body p password label d = do
    u ← valid_user (new_user d.lower d.base.now p)
    hash ← or_fail password_hash_failed (hs.hash password)
    (λ db. no_such_user (get_by_email d.base.same_email u.email db.users) (user_exists u.email) db)
    store_user (registered u hash d) label d

  unfoldable pub register :
      Text → Text → Text → Text → String → RegisterDraws → Db → Result (Session × Tokens) × Db
  register email username display password label d db =
      let p : NewUserParams = record {
        email = email;
        username = username;
        display_name = display;
        avatar_url = [];
      } in
      let done = with_tx (register_body p password label d) db in
      if empty_text email || (empty_text username || empty_text password)
      then (err missing_fields, db)
      else if ltb (byte_length password) 8
      then (err password_too_short, db)
      else done
