-- ===== src/Auth/ProviderTokens.antt =====
-- apps/auth-service/internal/app/provider_token.go: the token of a provider for a user, refreshed
-- when it is about to expire. The cipher and the endpoint of the provider are arguments.
pub mod Served
use vibe_sync.Base.{
  ◌≡◌, Bool, true, false, not, ◌&&◌, ◌||◌, Option, none, some, String, str_eq, List, [], ◌∷◌, ℤ,
  pos, negsuc, ◌+ℤ◌, ltb_ℤ, if◌then◌else◌,
}
use vibe_sync.Auth.Store.{
  ProviderToken, Db, AuthError, missing_params, provider_token_missing, token_decrypt_failed,
  token_encrypt_failed, token_refresh_failed, Result, ok, err, Tx, ◌>>=◌, ◌>>◌, pure, with_tx,
  or_fail,
}
use vibe_sync.Auth.Oauth.{Registry, get_provider}
use vibe_sync.Auth.OauthTables.{upsert_provider_token}

unfoldable pub find_provider_token : String → String → List ProviderToken → Option ProviderToken
find_provider_token provider user [] = none
find_provider_token provider user (t ∷ ts) =
    if str_eq t.provider provider && str_eq t.user_id user
    then some t
    else find_provider_token provider user ts

-- The answer of a token endpoint: seconds to live, and an empty text where the provider gives no
-- new refresh token.
pub record TokenRefreshResponse : Type 0 where
  pub access_token : String
  pub renewal : String
  pub lifetime : ℤ

-- `post` sends a refresh token to an endpoint; `none` is any error before a decoded answer. An
-- instant is in nanoseconds.
pub record TokenDraws : Type 0 where
  pub now : ℤ
  pub nanoseconds : ℤ → ℤ
  pub encrypt : String → Option String
  pub decrypt : String → Option String
  pub post : String → String → Option TokenRefreshResponse

unfoldable pub token_endpoint : String → Option String
token_endpoint provider =
    if str_eq provider "spotify"
    then some "https://accounts.spotify.com/api/token"
    else if str_eq provider "google"
    then some "https://oauth2.googleapis.com/token"
    else none

-- A new pair and its expiry; an empty access token is an error.
abbrev pub read_reply :
    String → TokenDraws → Option TokenRefreshResponse → Option (String × String × ℤ)
read_reply old d none = none
read_reply old d (some r) =
    let expiry = d.now +ℤ d.nanoseconds r.lifetime in
    if str_eq r.access_token ""
    then none
    else if str_eq r.renewal ""
    then some (r.access_token, old, expiry)
    else some (r.access_token, r.renewal, expiry)

abbrev pub ask : Option String → String → TokenDraws → Option (String × String × ℤ)
ask none refresh d = none
ask (some endpoint) refresh d = read_reply refresh d (d.post endpoint refresh)

unfoldable pub refresh_provider_token : String → String → TokenDraws → Option (String × String × ℤ)
unfolding token_endpoint
refresh_provider_token provider refresh d = ask (token_endpoint provider) refresh d

-- Two minutes before the expiry.
unfoldable pub usable : ℤ → ℤ → Bool
usable now expires_at = ltb_ℤ now (expires_at +ℤ negsuc 119999999999)

unfoldable pub refresh_stored : String → String → String → TokenDraws → Tx (String × ℤ)
refresh_stored provider user refresh d = do
  (access, new_refresh, expiry) ←
      or_fail token_refresh_failed (refresh_provider_token provider refresh d)
  access_enc ← or_fail token_encrypt_failed (d.encrypt access)
  refresh_enc ← or_fail token_encrypt_failed (d.encrypt new_refresh)
  with_tx (
      upsert_provider_token (record {
        provider = provider;
        user_id = user;
        access_token_enc = access_enc;
        refresh_token_enc = refresh_enc;
        expires_at = expiry;
      }))
  pure (access, expiry)

abbrev pub as_stored_or_new :
    Bool → String → String → ProviderToken → String → String → TokenDraws → Tx (String × ℤ)
as_stored_or_new true provider user stored access refresh d = pure (access, stored.expires_at)
as_stored_or_new false provider user stored access refresh d =
    refresh_stored provider user refresh d

unfoldable pub serve_stored : String → String → ProviderToken → TokenDraws → Tx (String × ℤ)
serve_stored provider user stored d = do
  access ← or_fail token_decrypt_failed (d.decrypt stored.access_token_enc)
  refresh ← or_fail token_decrypt_failed (d.decrypt stored.refresh_token_enc)
  as_stored_or_new (usable d.now stored.expires_at) provider user stored access refresh d

unfoldable pub get_known : String → String → TokenDraws → Tx (String × ℤ)
get_known provider user d db =
    (or_fail provider_token_missing (find_provider_token provider user db.provider_tokens)
        >>= λ stored. serve_stored provider user stored d)
      db

unfoldable pub get_provider_token : Option Registry → String → String → TokenDraws → Tx (String × ℤ)
get_provider_token registry user provider d db =
    let found = (get_provider registry provider >>= λ p. get_known provider user d) db in
    if str_eq user "" || str_eq provider "" then (err missing_params, db) else found
