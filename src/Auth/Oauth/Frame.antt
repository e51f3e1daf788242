-- ===== src/Auth/Oauth/Frame.antt =====
-- What the statements of a sign-in leave alone.
use vibe_sync.Auth.Store.{
  OAuthAccount, Session, User, OAuthFlow, Db, AuthError, ok, or_fail, create_session, create_token,
  storage_failure, signing_failure, token_encrypt_failed,
}
use vibe_sync.Auth.Oauth.{ProviderTokens, OAuthDraws, save_provider_tokens}
use vibe_sync.Auth.OauthTables.{upsert_provider_token}
use vibe_sync.Base.{if_false, ◌∙◌, inl, inr, Bool, Bool-cases, String, str_eq, List, ℤ, arith}
use vibe_sync.Auth.Transactions.{Keeps, Keeps->>=, Keeps-or_fail, Keeps-pure}
use vibe_sync.Auth.Tokens.{Text, Hasher}
use vibe_sync.Auth.Login.{LoginDraws, issue_session_for_user}
use vibe_sync.Auth.Register.{create_user, stage_created}

-- The flows, and the accounts of providers.
abbrev pub kept : Db → List OAuthFlow × List OAuthAccount
kept db = (db.flows, db.accounts)

pub create_session-Keeps : (s : Session) → Keeps kept (create_session s)
unfolding create_session
create_session-Keeps s db after a h = ground (arith, h)

pub create_token-Keeps : (t : _) → Keeps kept (create_token t)
unfolding create_token
create_token-Keeps t db after a h = ground (arith, h)

pub create_user-Keeps :
    (e : AuthError) (same : Text → Text → Bool) (u : User) → Keeps kept (create_user e same u)
unfolding create_user
create_user-Keeps e same u db after a h = ground (arith, h)

pub stage_created-Keeps : (e : _) → Keeps kept (stage_created e)
unfolding stage_created
stage_created-Keeps e db after a h = ground (arith, h)

upsert_provider_token-Keeps : (e : _) → Keeps kept (upsert_provider_token e)
unfolding upsert_provider_token
upsert_provider_token-Keeps e db after a h = ground (arith, h)

pub save_provider_tokens-Keeps :
    (provider user : String) (tokens : ProviderTokens) (d : OAuthDraws)
    → Keeps kept (save_provider_tokens provider user tokens d)
unfolding save_provider_tokens
save_provider_tokens-Keeps provider user tokens d db after a h =
    elim (Bool-cases (str_eq tokens.access_token "")) [
      | inl bare ↦ ground (arith, bare, h)
      | inr filled ↦
          Keeps->>= kept (or_fail token_encrypt_failed (d.encrypt tokens.access_token)) _
            (Keeps-or_fail kept token_encrypt_failed (d.encrypt tokens.access_token))
            (λ access.
              Keeps->>= kept (or_fail token_encrypt_failed (d.encrypt tokens.renewal)) _
                (Keeps-or_fail kept token_encrypt_failed (d.encrypt tokens.renewal))
                (λ refresh. upsert_provider_token-Keeps _))
            db after a (if_false (ok tt, db) _ filled ∙ h)
    ]

module _ (hs : Hasher) (session_ttl ttl : ℤ) where
  pub issue-Keeps :
      (u : User) (label : String) (d : LoginDraws)
      → Keeps kept (issue_session_for_user hs session_ttl ttl u label d)
  unfolding issue_session_for_user
  issue-Keeps u label d = Keeps->>= kept (create_session _) _ (create_session-Keeps _) λ _.
      Keeps->>= kept (or_fail storage_failure _) _ (Keeps-or_fail kept storage_failure _) λ drawn.
        Keeps->>= kept (create_token drawn.0) _ (create_token-Keeps drawn.0) λ _.
          Keeps->>= kept (or_fail signing_failure (d.access_token u)) _
            (Keeps-or_fail kept signing_failure _) λ access. Keeps-pure kept _
