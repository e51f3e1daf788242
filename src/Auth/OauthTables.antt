-- ===== src/Auth/OauthTables.antt =====
-- apps/auth-service/internal/infra/postgres: the tables of flows, of provider accounts and of the
-- tokens of providers, with NewOAuthFlow of internal/domain/oauth_flow.go.
use vibe_sync.Base.{ℤ, pos, negsuc, ◌+◌, ◌*◌, ◌/◌}
use vibe_sync.Base.{
  Bool, true, false, ◌&&◌, ◌||◌, Option, none, some, String, str_eq, List, [], ◌∷◌, ◌++◌, ℤ, ◌+ℤ◌,
  if◌then◌else◌,
}
use vibe_sync.Auth.Store.{
  OAuthFlow, OAuthAccount, ProviderToken, storage_failure, bad_state, ok, err, Tx,
}

unfoldable pub new_oauth_flow :
    ℤ → String → String → String → String → ℤ → Option String → Option OAuthFlow
new_oauth_flow now provider redirect challenge agent ttl none = none
new_oauth_flow now provider redirect challenge agent ttl (some state) = some (record {
  state = state;
  provider = provider;
  redirect_uri = redirect;
  code_challenge = challenge;
  user_agent = agent;
  created_at = now;
  expires_at = now +ℤ ttl;
})

unfoldable pub get_flow : String → List OAuthFlow → Option OAuthFlow
get_flow state [] = none
get_flow state (f ∷ fs) = if str_eq f.state state then some f else get_flow state fs

unfoldable pub delete_flow : String → List OAuthFlow → List OAuthFlow
delete_flow state [] = []
delete_flow state (f ∷ fs) =
    let rest = delete_flow state fs in if str_eq f.state state then rest else f ∷ rest

abbrev pub has_flow : Option OAuthFlow → Bool
has_flow none = false
has_flow (some f) = true

unfoldable pub create_flow : OAuthFlow → Tx (Unit {0})
create_flow f db =
    if has_flow (get_flow f.state db.flows)
    then (err storage_failure, db)
    else (ok tt, record db { flows = db.flows ++ f ∷ [] })

unfoldable pub consume_found : Option OAuthFlow → String → Tx OAuthFlow
consume_found none state db = (err bad_state, db)
consume_found (some f) state db = (ok f, record db { flows = delete_flow state db.flows })

-- `GetAndConsume`, with the answer of CompleteOAuth to a state that is not there.
unfoldable pub get_and_consume : String → Tx OAuthFlow
unfolding consume_found
get_and_consume state db = consume_found (get_flow state db.flows) state db

unfoldable pub get_account : String → String → List OAuthAccount → Option OAuthAccount
get_account provider id [] = none
get_account provider id (a ∷ accounts) =
    if str_eq a.provider provider && str_eq a.provider_user_id id
    then some a
    else get_account provider id accounts

-- One account of each provider for each user.
unfoldable pub has_provider : String → String → List OAuthAccount → Bool
has_provider user provider [] = false
has_provider user provider (a ∷ accounts) =
    str_eq a.user_id user && str_eq a.provider provider || has_provider user provider accounts

linked : Option OAuthAccount → Bool
linked none = false
linked (some a) = true

-- An account that is there is left as it is.
unfoldable pub upsert_account : OAuthAccount → Tx (Unit {0})
unfolding linked
upsert_account a db =
    if linked (get_account a.provider a.provider_user_id db.accounts)
    then (ok tt, db)
    else if has_provider a.user_id a.provider db.accounts
    then (err storage_failure, db)
    else (ok tt, record db { accounts = db.accounts ++ a ∷ [] })

unfoldable pub put_provider_token : ProviderToken → List ProviderToken → List ProviderToken
put_provider_token t [] = t ∷ []
put_provider_token t (old ∷ rest) =
    let after = put_provider_token t rest in
    if str_eq old.provider t.provider && str_eq old.user_id t.user_id then t ∷ rest else old ∷ after

-- A TIMESTAMPTZ has microseconds; instants are in nanoseconds. The rest is cut off.
unfoldable pub micros : ℤ → ℤ
micros (pos n) = pos (n / 1000 * 1000)
micros (negsuc n) = negsuc (n / 1000 * 1000 + 999)

unfoldable pub upsert_provider_token : ProviderToken → Tx (Unit {0})
unfolding put_provider_token
upsert_provider_token t db =
    let row = record t { expires_at = micros t.expires_at } in
    (ok tt, record db { provider_tokens = put_provider_token row db.provider_tokens })
