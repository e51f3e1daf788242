-- ===== src/Auth/Oauth.antt =====
-- apps/auth-service/internal/app/oauth.go: sign-in with a provider. A provider is what the two requests call of it; an instant or a length of
-- time is a number of nanoseconds.
pub mod Frame
pub mod State
pub mod Accounts
pub mod Linked
use vibe_sync.Base.{
  Bool, true, false, not, ◌&&◌, ◌||◌, Option, none, some, String, str_eq, List, [], ◌∷◌, ◌++◌, ℤ,
  pos, ◌+ℤ◌, ltb_ℤ, if◌then◌else◌, lookup, insert,
}
use vibe_sync.Auth.Tokens.{Text, Hasher, can_login}
use vibe_sync.Auth.Store.{
  Session, User, UserCreated, OAuthFlow, OAuthAccount, ProviderToken, Db, AuthError,
  storage_failure, missing_oauth_params, oauth_disabled, unknown_provider, bad_state,
  exchange_failed, oauth_flow_init, oauth_auth_url, linked_user_missing, profile_failed,
  profile_incomplete, profile_invalid, token_encrypt_failed, oauth_login_denied, Result, ok, err,
  Tx, ◌>>=◌, ◌>>◌, pure, fail, with_tx, or_fail,
}
use vibe_sync.Auth.Refresh.{Tokens, guard}
use vibe_sync.Auth.Login.{LoginDraws, get_by_email, empty_text, issue_session_for_user}
use vibe_sync.Auth.Names.{NewUserParams, NewUser, refused, fine, new_user, derive_username}
use vibe_sync.Auth.Register.{create_user, stage_created}
use vibe_sync.Auth.OauthTables.{
  new_oauth_flow, get_flow, delete_flow, has_flow, create_flow, consume_found, get_and_consume,
  get_account, has_provider, upsert_account, put_provider_token, upsert_provider_token,
}

pub record ProviderTokens : Type 0 where
  pub access_token : String
  pub id_token : String
  pub renewal : String
  pub expires_in : ℤ

pub record ProviderProfile : Type 0 where
  pub provider : String
  pub provider_user_id : String
  pub email : Text
  pub email_verified : Bool
  pub display_name : Text
  pub avatar_url : Text

-- The port OAuthProvider; `none` is an error.
pub record OAuthProvider : Type 0 where
  pub name : String
  pub authorization_url : String → String → String → Option String
  pub exchange : String → String → String → Option ProviderTokens
  pub profile : ProviderTokens → Option ProviderProfile

abbrev pub Registry : Type 0
Registry = List (String × OAuthProvider)

unfoldable pub new_registry : List OAuthProvider → Registry → Registry
new_registry [] made = made
new_registry (p ∷ ps) made = new_registry ps (insert p.name p made)

-- A nil registry is `none`.
unfoldable pub get_provider : Option Registry → String → Tx OAuthProvider
get_provider none name = fail oauth_disabled
get_provider (some r) name = or_fail unknown_provider (lookup name r)

unfoldable pub begin_oauth :
    Option Registry
    → ℤ
    → String
    → String
    → String
    → ℤ
    → Option String
    → Db
    → Result (String × String) × Db
begin_oauth registry ttl name redirect challenge now state_draw db =
    let begun =
      (do
        provider ← get_provider registry name
        flow ←
            or_fail oauth_flow_init (new_oauth_flow now name redirect challenge "" ttl state_draw)
        with_tx (create_flow flow)
        url ←
            or_fail oauth_auth_url
              (provider.authorization_url redirect flow.state flow.code_challenge)
        pure (url, flow.state))
        db in
    if str_eq name "" || str_eq redirect "" then (err missing_oauth_params, db) else begun

-- What the completion of a flow draws; `encrypt` is the port KeyCipher.
pub record OAuthDraws : Type 0 where
  pub base : LoginDraws
  pub user_id : String
  pub outbox_id : String
  pub lower : Text → Text
  pub encrypt : String → Option String

abbrev pub hour : ℤ
hour = pos 3600000000000

abbrev pub is_zero : ℤ → Bool
is_zero z = not (ltb_ℤ z (pos 0) || ltb_ℤ (pos 0) z)

unfoldable pub save_provider_tokens : String → String → ProviderTokens → OAuthDraws → Tx (Unit {0})
save_provider_tokens provider user tokens d db =
    let saved =
      (do
        access ← or_fail token_encrypt_failed (d.encrypt tokens.access_token)
        refresh ← or_fail token_encrypt_failed (d.encrypt tokens.renewal)
        upsert_provider_token (record {
          provider = provider;
          user_id = user;
          access_token_enc = access;
          refresh_token_enc = refresh;
          expires_at =
              d.base.now +ℤ (if is_zero tokens.expires_in then hour else tokens.expires_in);
        }))
        db in
    if str_eq tokens.access_token "" then (ok tt, db) else saved

abbrev pub valid_profile : NewUser → Tx User
valid_profile (refused e) db = (err (profile_invalid e), db)
valid_profile (fine u) db = (ok u, db)

abbrev pub account_of : User → String → ProviderProfile → OAuthDraws → OAuthAccount
account_of u name profile d = record {
  user_id = u.id;
  provider = name;
  provider_user_id = profile.provider_user_id;
  created_at = d.base.now;
}

unfoldable pub create_linked : User → String → ProviderProfile → OAuthDraws → Tx User
create_linked u name profile d = do
  create_user storage_failure d.base.same_email u
  upsert_account (account_of u name profile d)
  stage_created (record {
    id = d.outbox_id;
    user_id = u.id;
    email = u.email;
    username = u.username;
    provider = name;
    created_at = d.base.now;
  })
  pure u

abbrev pub new_params : ProviderProfile → NewUserParams
new_params profile = record {
  email = profile.email;
  username = derive_username profile.email;
  display_name = profile.display_name;
  avatar_url = profile.avatar_url;
}

-- The user with the email of the profile, else a new one.
unfoldable pub user_by_email : Option User → String → ProviderProfile → OAuthDraws → Tx User
user_by_email (some u) name profile d = do upsert_account (account_of u name profile d); pure u
user_by_email none name profile d = do
  u ← valid_profile (new_user d.lower d.base.now (new_params profile))
  create_linked (record u { id = d.user_id }) name profile d

unfoldable pub user_of_account :
    Option OAuthAccount → String → ProviderProfile → OAuthDraws → Tx User
unfolding user_by_email create_linked
user_of_account (some a) name profile d db =
    or_fail linked_user_missing (lookup a.user_id db.users) db
user_of_account none name profile d db =
    user_by_email (get_by_email d.base.same_email profile.email db.users) name profile d db

abbrev pub find_or_create : String → ProviderProfile → OAuthDraws → Tx User
find_or_create name profile d db =
    user_of_account (get_account name profile.provider_user_id db.accounts) name profile d db

module _ (hs : Hasher) (session_ttl ttl : ℤ) where
  unfoldable pub complete_oauth_upsert :
      String → ProviderProfile → String → ProviderTokens → OAuthDraws → Tx (Session × Tokens)
  complete_oauth_upsert name profile label tokens d = do
    u ← find_or_create name profile d
    guard (can_login u.status) (oauth_login_denied u.id)
    save_provider_tokens name u.id tokens d
    issue_session_for_user hs session_ttl ttl u label d.base

  -- From the consumed flow on; the exchange and the profile are fetched outside of a transaction.
  unfoldable pub redeem :
      OAuthProvider → String → String → OAuthDraws → OAuthFlow → Tx (Session × Tokens)
  redeem provider code verifier d flow = do
    tokens ← or_fail exchange_failed (provider.exchange code flow.redirect_uri verifier)
    profile ← or_fail profile_failed (provider.profile tokens)
    guard (not (str_eq profile.provider_user_id "" || empty_text profile.email)) profile_incomplete
    with_tx (complete_oauth_upsert provider.name profile flow.user_agent tokens d)

  unfoldable pub complete_oauth :
      Option Registry → String → String → String → String → OAuthDraws → Tx (Session × Tokens)
  complete_oauth registry name state code verifier d = do
    provider ← get_provider registry name
    flow ← with_tx (get_and_consume state)
    redeem provider code verifier d flow
