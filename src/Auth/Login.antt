-- ===== src/Auth/Login.antt =====
-- apps/auth-service/internal/app/login.go: the login with a password.
pub mod Grants
pub mod Refreshes
use vibe_sync.Base.{
  ℕ, ◌+◌, ◌≡◌, ◌≢◌, refl, sym, ap, ◌∙◌, inl, inr, Bool, true, false, not, Bool-cases, Option-cases,
  ◌||◌, Option, none, some, String, str_eq, List, [], ◌∷◌, ◌++◌, ℤ, ◌+ℤ◌, arith, if◌then◌else◌,
  lookup,
}
use vibe_sync.Auth.Tokens.{
  Text, can_login, RefreshToken, ValidatorMaterial, presentation_token, Hasher, new_refresh_token,
}
use vibe_sync.Auth.Store.{
  Session, User, Db, AuthError, storage_failure, signing_failure, missing_credentials,
  invalid_credentials, login_denied, Result, ok, err, Tx, ◌>>=◌, ◌>>◌, pure, fail, with_tx,
  create_session, create_token, or_fail,
}
use vibe_sync.Auth.Refresh.{Tokens, guard}

-- What a login draws from its surroundings, with the equality of CITEXT.
pub record LoginDraws : Type 0 where
  pub now : ℤ
  pub session_id : String
  pub family_id : String
  pub token_id : String
  pub selector_draw : Option Text
  pub validator_draw : Option Text
  pub access_token : User → Option String
  pub same_email : Text → Text → Bool

unfoldable pub get_by_email : (Text → Text → Bool) → Text → List (String × User) → Option User
get_by_email same email [] = none
get_by_email same email ((id, u) ∷ us) =
    if same u.email email then some u else get_by_email same email us

abbrev pub has_password : User → Bool
has_password u = not (str_eq u.password_hash "")

unfoldable pub new_session : ℤ → String → String → String → ℤ → String → Session
new_session now id user family ttl label = record {
  id = id;
  user_id = user;
  device_label = label;
  family_id = family;
  created_at = now;
  last_seen_at = now;
  expires_at = now +ℤ ttl;
}

abbrev pub empty_text : Text → Bool
empty_text [] = true
empty_text (c ∷ cs) = false

module _ (hs : Hasher) (session_ttl ttl : ℤ) where
  -- From the new session on; registration and OAuth share it.
  unfoldable pub issue_session_for_user : User → String → LoginDraws → Tx (Session × Tokens)
  issue_session_for_user u label d = do
    create_session (new_session d.now d.session_id u.id d.family_id session_ttl label)
    (row, material) ← or_fail storage_failure (
        new_refresh_token hs d.now d.token_id d.family_id u.id d.session_id "" ttl d.selector_draw
          d.validator_draw)
    create_token row
    access ← or_fail signing_failure (d.access_token u)
    pure (
      new_session d.now d.session_id u.id d.family_id session_ttl label,
      record { access = access; refresh = presentation_token material },
    )

  unfoldable pub login_user : User → Text → String → LoginDraws → Tx (Session × Tokens)
  login_user u password label d = do
    guard (has_password u) invalid_credentials
    guard (hs.compare u.password_hash password) invalid_credentials
    guard (can_login u.status) (login_denied u.id)
    issue_session_for_user u label d

  unfoldable pub login_body : Text → Text → String → LoginDraws → Tx (Session × Tokens)
  login_body email password label d db =
      (or_fail invalid_credentials (get_by_email d.same_email email db.users) >>= λ u.
      login_user u password label d)
        db

  unfoldable pub login : Text → Text → String → LoginDraws → Db → Result (Session × Tokens) × Db
  login email password label d db =
      let done = with_tx (login_body email password label d) db in
      if empty_text email || empty_text password then (err missing_credentials, db) else done
