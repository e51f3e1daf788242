-- ===== src/Auth/Store.antt =====
-- apps/auth-service: the tables behind the refresh tokens (internal/infra/postgres/refresh_repo.go
-- and session_repo.go) and the transaction of internal/app/service.go. Failures of the connection
-- are not modelled; of the constraints, the uniqueness of token ids and selectors is.
use vibe_sync.Base.{
  Bool, true, false, not, ◌||◌, Option, none, some, String, str_eq, List, [], ◌∷◌, ◌++◌, ℤ,
  if◌then◌else◌, lookup, insert, ◌&&◌,
}
use vibe_sync.Auth.Tokens.{
  Text, text_eq, RefreshToken, compromised, RefreshTokenStatus, UserStatus, mark_used, mark_revoked,
  mark_compromised,
}

pub record Session : Type 0 where
  pub id : String
  pub user_id : String
  pub device_label : String
  pub family_id : String
  pub created_at : ℤ
  pub last_seen_at : ℤ
  pub expires_at : ℤ

-- internal/domain/user.go; an empty hash is that of a user without a password.
pub record User : Type 0 where
  pub id : String
  pub email : Text
  pub username : Text
  pub display_name : Text
  pub avatar_url : Text
  pub password_hash : String
  pub system_role : ℤ
  pub status : UserStatus
  pub created_at : ℤ
  pub updated_at : ℤ

-- internal/domain/oauth_flow.go.
pub record OAuthFlow : Type 0 where
  pub state : String
  pub provider : String
  pub redirect_uri : String
  pub code_challenge : String
  pub user_agent : String
  pub created_at : ℤ
  pub expires_at : ℤ

pub record OAuthAccount : Type 0 where
  pub user_id : String
  pub provider : String
  pub provider_user_id : String
  pub created_at : ℤ

-- internal/infra/postgres/provider_token_repo.go; the two tokens are encrypted. The time of the
-- update, which nothing reads, is left out.
pub record ProviderToken : Type 0 where
  pub provider : String
  pub user_id : String
  pub access_token_enc : String
  pub refresh_token_enc : String
  pub expires_at : ℤ

-- The event user.created.v1 in the outbox, before its payload is written as JSON.
pub record UserCreated : Type 0 where
  pub id : String
  pub user_id : String
  pub email : Text
  pub username : Text
  pub provider : String
  pub created_at : ℤ

pub record Db : Type 0 where
  pub tokens : List RefreshToken
  pub users : List (String × User)
  pub sessions : List (String × Session)
  pub flows : List OAuthFlow
  pub accounts : List OAuthAccount
  pub provider_tokens : List ProviderToken
  pub outbox : List UserCreated

-- internal/domain/user.go.
pub data UserError : Type 0 where
  email_invalid username_invalid display_name_too_long : UserError

pub data AuthError : Type 0 where
  missing_refresh_token malformed_refresh_token invalid_refresh_token : AuthError
  reuse_detected : String → AuthError
  compromised_family revoked_token expired_token : AuthError
  account_inactive storage_failure signing_failure : AuthError
  missing_credentials invalid_credentials : AuthError
  login_denied : String → AuthError
  missing_fields password_too_short password_hash_failed : AuthError
  invalid_fields : UserError → AuthError
  user_exists : Text → AuthError
  missing_oauth_params oauth_disabled unknown_provider bad_state : AuthError
  exchange_failed profile_failed profile_incomplete token_encrypt_failed : AuthError
  profile_invalid : UserError → AuthError
  oauth_login_denied : String → AuthError
  oauth_flow_init oauth_auth_url linked_user_missing : AuthError
  missing_params provider_token_missing token_decrypt_failed token_refresh_failed : AuthError

pub data Result {ℓ} (A : Type ℓ) : Type ℓ where
  ok : A → Result A
  err : AuthError → Result A

-- The statements of a transaction: a result, and the tables as the statements left them.
abbrev pub Tx : Type 0 → Type 0
Tx A = Db → Result A × Db

abbrev pub after_step : {A B : Type 0} → (A → Tx B) → Result A × Db → Result B × Db
after_step k (ok a, db) = k a db
after_step k (err e, db) = (err e, db)

infixl 5 ◌>>=◌ ◌>>◌
abbrev pub ◌>>=◌ : {A B : Type 0} → Tx A → (A → Tx B) → Tx B
◌>>=◌ m k db = after_step k (m db)

abbrev pub ◌>>◌ : {B : Type 0} → Tx (Unit {0}) → Tx B → Tx B
m >> k = m >>= λ _. k

abbrev pub pure : {A : Type 0} → A → Tx A
pure a db = (ok a, db)

abbrev pub fail : {A : Type 0} → AuthError → Tx A
fail e db = (err e, db)

unfoldable pub commit_or_rollback : {A : Type 0} → Db → Result A × Db → Result A × Db
commit_or_rollback before (ok a, db) = (ok a, db)
commit_or_rollback before (err e, db) = (err e, before)

-- `withTx`: a nil error commits, any other error rolls back.
unfoldable pub with_tx : {A : Type 0} → Tx A → Db → Result A × Db
unfolding commit_or_rollback
with_tx m db = commit_or_rollback db (m db)

unfoldable pub get_by_selector : Text → List RefreshToken → Option RefreshToken
get_by_selector s [] = none
get_by_selector s (t ∷ ts) = if text_eq t.selector s then some t else get_by_selector s ts

unfoldable pub update_where :
    (RefreshToken → Bool) → (RefreshToken → RefreshToken) → List RefreshToken → List RefreshToken
update_where p f [] = []
update_where p f (t ∷ ts) = (if p t then f t else t) ∷ update_where p f ts

abbrev pub is_compromised : RefreshTokenStatus → Bool
is_compromised compromised = true
is_compromised _ = false

unfoldable pub mark_used_row : String → ℤ → Tx (Unit {0})
mark_used_row id at db =
    (ok tt, record db { tokens = update_where (λ t. str_eq t.id id) (mark_used at) db.tokens })

unfoldable pub mark_revoked_row : String → ℤ → Tx (Unit {0})
mark_revoked_row id at db =
    (ok tt, record db { tokens = update_where (λ t. str_eq t.id id) (mark_revoked at) db.tokens })

unfoldable pub in_family : String → RefreshToken → Bool
in_family family t = str_eq t.family_id family && not (is_compromised t.status)

-- The number of rows, which only metrics use, is left out.
unfoldable pub revoke_family : String → ℤ → Tx (Unit {0})
unfolding in_family
revoke_family family at db =
    (ok tt, record db { tokens = update_where (in_family family) (mark_compromised at) db.tokens })

unfoldable pub conflicts : RefreshToken → List RefreshToken → Bool
conflicts n [] = false
conflicts n (t ∷ ts) = str_eq t.id n.id || (text_eq t.selector n.selector || conflicts n ts)

unfoldable pub create_token : RefreshToken → Tx (Unit {0})
create_token t db =
    if conflicts t db.tokens
    then (err storage_failure, db)
    else (ok tt, record db { tokens = db.tokens ++ t ∷ [] })

-- The ids and the families of sessions are unique.
abbrev pub session_clash : Session → List (String × Session) → Bool
session_clash n [] = false
session_clash n ((id, s) ∷ rest) =
    str_eq id n.id || (str_eq s.family_id n.family_id || session_clash n rest)

unfoldable pub create_session : Session → Tx (Unit {0})
create_session s db =
    if session_clash s db.sessions
    then (err storage_failure, db)
    else (ok tt, record db { sessions = insert s.id s db.sessions })

unfoldable pub update_last_seen : String → ℤ → Tx (Unit {0})
update_last_seen id at db = elim (lookup id db.sessions) [
  | none ↦ (ok tt, db)
  | some s ↦
      (ok tt, record db { sessions = insert id (record s { last_seen_at = at }) db.sessions })
]

-- A row that is not there is the given error.
abbrev pub or_fail : {A : Type 0} → AuthError → Option A → Tx A
or_fail e none db = (err e, db)
or_fail e (some a) db = (ok a, db)
