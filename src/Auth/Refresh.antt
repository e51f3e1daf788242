-- ===== src/Auth/Refresh.antt =====
-- apps/auth-service/internal/app/refresh.go: rotation of a refresh token, and logout.
pub mod Lookup
pub mod Reuse
pub mod Rotation
use vibe_sync.Base.{
  Bool, true, false, not, Option, none, some, String, List, [], ◌∷◌, ℤ, if◌then◌else◌, lookup,
}
use vibe_sync.Auth.Tokens.{
  Text, can_login, RefreshToken, active, RefreshTokenStatus, ValidatorMaterial, presentation_token,
  Hasher, new_refresh_token, verify_validator, classify_use, UseOutcome, rotate, reuse,
  family_compromised, token_revoked, token_expired, split_selector_validator,
}
use vibe_sync.Auth.Store.{
  Session, User, Db, AuthError, missing_refresh_token, malformed_refresh_token,
  invalid_refresh_token, reuse_detected, compromised_family, revoked_token, expired_token,
  account_inactive, storage_failure, signing_failure, Result, ok, err, Tx, ◌>>=◌, ◌>>◌, pure, fail,
  with_tx, get_by_selector, mark_used_row, mark_revoked_row, revoke_family, create_token,
  update_last_seen, or_fail,
}

-- What a request draws from its surroundings: the time, the id and the two random halves of the
-- new token, and the signed access token of a user; `none` is an error of the source of it.
pub record Request : Type 0 where
  pub now : ℤ
  pub new_id : String
  pub selector_draw : Option Text
  pub validator_draw : Option Text
  pub access_token : String → Option String

pub record Tokens : Type 0 where
  pub access : String
  pub refresh : Text

-- The `switch` on the outcome.
unfoldable pub act : UseOutcome → RefreshToken → ℤ → Tx (Unit {0})
act rotate rt now = pure tt
act reuse rt now = do revoke_family rt.family_id now; fail (reuse_detected rt.family_id)
act family_compromised rt now = fail compromised_family
act token_revoked rt now = fail revoked_token
act token_expired rt now = fail expired_token

abbrev pub guard : Bool → AuthError → Tx (Unit {0})
guard true e = pure tt
guard false e = fail e

abbrev pub find_token : Text → Tx RefreshToken
find_token s db = or_fail invalid_refresh_token (get_by_selector s db.tokens) db

abbrev pub find_user : String → Tx User
find_user id db = or_fail invalid_refresh_token (lookup id db.users) db

abbrev pub find_session : String → Tx Session
find_session id db = or_fail storage_failure (lookup id db.sessions) db

module _ (hs : Hasher) (ttl : ℤ) where
  -- From the update of the presented row to the answer.
  unfoldable pub issue : RefreshToken → Request → Tx (Session × Tokens)
  issue rt r = do
    mark_used_row rt.id r.now
    (new_row, material) ← or_fail storage_failure (
        new_refresh_token hs r.now r.new_id rt.family_id rt.user_id rt.session_id rt.id ttl
          r.selector_draw r.validator_draw)
    create_token new_row
    update_last_seen rt.session_id r.now
    access ← or_fail signing_failure (r.access_token rt.user_id)
    session ← find_session rt.session_id
    pure (session, record { access = access; refresh = presentation_token material })

  unfoldable pub rotate_checked : RefreshToken → Request → Tx (Session × Tokens)
  rotate_checked rt r = do
    user ← find_user rt.user_id
    guard (can_login user.status) account_inactive
    issue rt r

  unfoldable pub refresh_body : Text → Text → Request → Tx (Session × Tokens)
  refresh_body selector validator r = do
    rt ← find_token selector
    guard (verify_validator hs rt validator) invalid_refresh_token
    act (classify_use rt r.now) rt r.now
    rotate_checked rt r

  unfoldable pub refresh_halves :
      Option (Text × Text) → Request → Db → Result (Session × Tokens) × Db
  refresh_halves none r db = (err malformed_refresh_token, db)
  refresh_halves (some (selector, validator)) r db = with_tx (refresh_body selector validator r) db

  unfoldable pub refresh_token : Text → Request → Db → Result (Session × Tokens) × Db
  unfolding refresh_halves
  refresh_token [] r db = (err missing_refresh_token, db)
  refresh_token (c ∷ cs) r db = refresh_halves (split_selector_validator (c ∷ cs)) r db

revoke_active : RefreshTokenStatus → RefreshToken → ℤ → Tx Bool
revoke_active active rt now = do mark_revoked_row rt.id now; pure true
revoke_active _ rt now = pure false

logout_row : Option RefreshToken → ℤ → Tx Bool
unfolding revoke_active
logout_row none now = pure false
logout_row (some rt) now = revoke_active rt.status rt now

unfoldable pub logout_body : Text → ℤ → Tx Bool
unfolding logout_row
logout_body selector now db = logout_row (get_by_selector selector db.tokens) now db

logout_halves : Option (Text × Text) → ℤ → Db → Result Bool × Db
logout_halves none now db = (ok false, db)
logout_halves (some (selector, _)) now db = with_tx (logout_body selector now) db

-- The answer tells whether a token was revoked.
unfoldable pub logout : Text → ℤ → Db → Result Bool × Db
unfolding logout_halves
logout [] now db = (ok false, db)
logout (c ∷ cs) now db = logout_halves (split_selector_validator (c ∷ cs)) now db
