-- ===== src/Examples/SignIns.antt =====
-- Examples on sign-ins with a provider, and on the tokens of providers.
use vibe_sync.Auth.ProviderTokens.Served.{IsKept}
use vibe_sync.Base.{ℤ}
use vibe_sync.Base.{
  ◌≡◌, refl, true, Option, some, String, str_eq, eq_iff, ℤ, pos, List, [], ◌∷◌, lookup, insert,
  arith,
}
use vibe_sync.Auth.Tokens.{text_eq, UserStatus, Hasher}
use vibe_sync.Auth.Store.{Session, User, OAuthFlow, OAuthAccount, Db, Result, ok, err, bad_state}
use vibe_sync.Auth.Refresh.{Tokens}
use vibe_sync.Auth.Login.{LoginDraws}
use vibe_sync.Auth.Oauth.{
  ProviderTokens, ProviderProfile, OAuthProvider, Registry, OAuthDraws, complete_oauth,
}
use vibe_sync.Auth.OauthTables.{get_flow, get_account}
use vibe_sync.Auth.Oauth.State.{state_spent}
use vibe_sync.Auth.Oauth.Linked.{complete_oauth-linked}
use vibe_sync.Auth.ProviderTokens.{TokenDraws, get_provider_token}
use vibe_sync.Auth.ProviderTokens.Served.{served_again}

abbrev plain : Hasher
plain = record { hash = λ v. some "hash"; compare = λ h v. str_eq h "hash" }

abbrev profile : ProviderProfile
profile = record {
  provider = "google";
  provider_user_id = "g7";
  email = b'a' ∷ b'n' ∷ b'n' ∷ b'@' ∷ b'b' ∷ b'.' ∷ b'c' ∷ [];
  email_verified = true;
  display_name = [];
  avatar_url = [];
}

abbrev google : OAuthProvider
google = record {
  name = "google";
  authorization_url = λ redirect state challenge. some "https://accounts.google.com";
  exchange = λ code redirect verifier.
      some (record { access_token = "at"; id_token = ""; renewal = ""; expires_in = pos 0 });
  profile = λ tokens. some profile;
}

abbrev providers : Registry
providers = ("google", google) ∷ []

abbrev flow : OAuthFlow
flow = record {
  state = "st";
  provider = "google";
  redirect_uri = "app";
  code_challenge = "ch";
  user_agent = "";
  created_at = pos 1;
  expires_at = pos 600;
}

abbrev begun : Db
begun = record {
  tokens = [];
  users = [];
  sessions = [];
  flows = flow ∷ [];
  accounts = [];
  provider_tokens = [];
  outbox = [];
}

abbrev login_draws : LoginDraws
login_draws = record {
  now = pos 50;
  session_id = "s1";
  family_id = "f1";
  token_id = "t1";
  selector_draw = some (1 ∷ []);
  validator_draw = some (2 ∷ []);
  access_token = λ u. some "signed";
  same_email = text_eq;
}

abbrev draws : OAuthDraws
draws = record {
  base = login_draws;
  user_id = "u1";
  outbox_id = "e1";
  lower = λ t. t;
  encrypt = λ x. some x;
}

abbrev completed : Result (Session × Tokens) × Db
completed =
    complete_oauth plain (pos 100) (pos 10) (some providers) "google" "st" "code" "v" draws begun

state_spent_example :
    complete_oauth plain
      (pos 100)
      (pos 10)
      (some providers)
      "google"
      "st"
      "code"
      "v"
      draws
      completed.1
    ≡ (err bad_state, completed.1)
unfolding lookup
state_spent_example =
    state_spent plain (pos 100) (pos 10) providers "google" "google" "st" "code" "code" "v" "v"
      draws draws google google begun refl refl

abbrev session : Session
session = record {
  id = "s1";
  user_id = "u1";
  device_label = "";
  family_id = "f1";
  created_at = pos 50;
  last_seen_at = pos 50;
  expires_at = pos 150;
}

no_users : (id : String) (u : User) → lookup id begun.users ≡ some u → u.id ≡ id
unfolding lookup
no_users id u h = absurd (ground (arith, h))

complete_oauth-linked_example :
    (f : OAuthFlow) × (get_flow "st" begun.flows ≡ some f)
    × ((tokens : ProviderTokens) × (p : ProviderProfile) × (google.exchange "code" f.redirect_uri
            "v"
          ≡ some tokens)
        × (google.profile tokens ≡ some p)
        × ((a : OAuthAccount) × (get_account google.name p.provider_user_id completed.1.accounts
              ≡ some a)
            × (a.user_id ≡ session.user_id)))
unfolding lookup complete_oauth text_eq vibe_sync.Auth.Oauth.get_provider
    vibe_sync.Auth.OauthTables.get_and_consume get_flow vibe_sync.Auth.OauthTables.delete_flow
    vibe_sync.Auth.Store.with_tx vibe_sync.Auth.Oauth.redeem
    vibe_sync.Auth.Oauth.complete_oauth_upsert get_account vibe_sync.Auth.Oauth.user_of_account
    vibe_sync.Auth.OauthTables.upsert_account vibe_sync.Auth.OauthTables.has_provider
    vibe_sync.Auth.Oauth.save_provider_tokens vibe_sync.Auth.OauthTables.upsert_provider_token
    vibe_sync.Auth.Register.create_user vibe_sync.Auth.Register.stage_created
    vibe_sync.Auth.Names.derive_username vibe_sync.RoomService.Model.trim_space
    vibe_sync.RoomService.Model.byte_length vibe_sync.Auth.Names.new_user
    vibe_sync.Auth.Names.is_email vibe_sync.Auth.Names.is_username vibe_sync.Auth.Login.get_by_email
    vibe_sync.Auth.Login.issue_session_for_user vibe_sync.Auth.Store.create_session
    vibe_sync.Auth.Tokens.new_refresh_token vibe_sync.Auth.Store.create_token
    vibe_sync.Auth.Store.conflicts vibe_sync.Auth.Login.new_session vibe_sync.Base.◌+ℤ◌
    vibe_sync.Base.insert vibe_sync.Auth.Tokens.presentation_token
complete_oauth-linked_example =
    complete_oauth-linked plain (pos 100) (pos 10) providers "google" "st" "code" "v" draws google
      begun completed.1 session (record { access = "signed"; refresh = 1 ∷ b'.' ∷ 2 ∷ [] }) no_users
      refl refl

-- A stored token that is refreshed, and the request after it.
abbrev stale : Db
stale = record begun {
  provider_tokens =
      record {
        provider = "google";
        user_id = "u1";
        access_token_enc = "old";
        refresh_token_enc = "rt";
        expires_at = pos 60;
      }
      ∷ [];
}

abbrev token_draws : TokenDraws
token_draws = record {
  now = pos 50;
  nanoseconds = λ n. n;
  encrypt = λ x. some x;
  decrypt = λ x. some x;
  post = λ endpoint refresh.
      some (record { access_token = "new"; renewal = ""; lifetime = pos 3600000000000 });
}

abbrev refreshed : Db
refreshed = (get_provider_token (some providers) "u1" "google" token_draws stale).1

same_text : (x y : String) → token_draws.encrypt x ≡ some y → token_draws.decrypt y ≡ some x
same_text x y h = cc h

served_again_example :
    (kept : ℤ) × IsKept (pos 3600000000050) kept
    × (get_provider_token
          (some providers)
          "u1"
          "google"
          (record token_draws { now = pos 70 })
          refreshed
        ≡ (ok ("new", kept), refreshed))
unfolding lookup get_provider_token vibe_sync.Auth.Oauth.get_provider
    vibe_sync.Auth.ProviderTokens.get_known vibe_sync.Auth.ProviderTokens.find_provider_token
    vibe_sync.Auth.ProviderTokens.serve_stored vibe_sync.Auth.ProviderTokens.usable
    vibe_sync.Auth.ProviderTokens.refresh_stored
    vibe_sync.Auth.ProviderTokens.refresh_provider_token vibe_sync.Auth.Store.with_tx
    vibe_sync.Auth.OauthTables.upsert_provider_token vibe_sync.Auth.OauthTables.micros
    vibe_sync.Base.◌+ℤ◌
served_again_example =
    served_again providers google "u1" "google" token_draws (record token_draws { now = pos 70 })
      stale refreshed "new" (pos 3600000000050) same_text refl refl refl refl
