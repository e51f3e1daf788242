-- ===== src/Auth/Oauth/Linked.antt =====
-- The session of a sign-in belongs to the user whom the provider's identity is linked to.
use vibe_sync.Auth.Oauth.{
  Registry, ProviderTokens, ProviderProfile, OAuthProvider, get_provider, OAuthDraws,
  save_provider_tokens, find_or_create, complete_oauth_upsert, redeem, complete_oauth,
}
use vibe_sync.Auth.OauthTables.{get_account, get_flow, get_and_consume, consume_found}
use vibe_sync.Auth.Store.{
  unknown_provider, OAuthAccount, Session, User, OAuthFlow, Db, ok, with_tx, or_fail,
  exchange_failed, profile_failed, profile_incomplete, oauth_login_denied,
}
use vibe_sync.Auth.Register.Rows.{issue-users}
use vibe_sync.Auth.Transactions.{>>=-ok, with_tx-ok, or_fail-ok, Keeps-guard}
use vibe_sync.Base.{
  subst, ◌≡◌, refl, sym, ap, ◌∙◌, inl, inr, not, Option-cases, ◌||◌, some, String, str_eq, List, ℤ,
  arith, lookup,
}
use vibe_sync.Auth.Oauth.Frame.{save_provider_tokens-Keeps, issue-Keeps}
use vibe_sync.Auth.Tokens.{Hasher, can_login}
use vibe_sync.Auth.Refresh.{Tokens, guard}
use vibe_sync.Auth.Login.{issue_session_for_user, empty_text}
use vibe_sync.Auth.Oauth.Accounts.{accounts, of_kept, Linked, Keyed, user_of_account-Linked}

module _ (hs : Hasher) (session_ttl ttl : ℤ) where
  upsert-Linked :
      (name : String) (profile : ProviderProfile) (label : String) (tokens : ProviderTokens)
      (d : OAuthDraws) (db after : Db) (s : Session) (t : Tokens)
      → Keyed db.users
      → complete_oauth_upsert hs session_ttl ttl name profile label tokens d db ≡ (ok (s, t), after)
      → Linked name profile s.user_id after
  unfolding complete_oauth_upsert
  upsert-Linked name profile label tokens d db after s t keys h =
      let (u, db1, found, rest1) = >>=-ok (find_or_create name profile d) _ db h in
      let (_, db2, allowed, rest2) =
        >>=-ok (guard (can_login u.status) (oauth_login_denied u.id)) _ db1 rest1 in
      let (_, db3, saved, rest3) = >>=-ok (save_provider_tokens name u.id tokens d) _ db2 rest2 in
      let (a, row, mine) =
        user_of_account-Linked (get_account name profile.provider_user_id db.accounts) u name
          profile d db db1 keys refl found in
      let same1 =
        Keeps-guard accounts (can_login u.status) (oauth_login_denied u.id) db1 db2 _ allowed in
      let same2 =
        of_kept (save_provider_tokens name u.id tokens d)
          (save_provider_tokens-Keeps name u.id tokens d) db2 db3 _ saved in
      let same3 =
        of_kept (issue_session_for_user hs session_ttl ttl u label d.base)
          (issue-Keeps hs session_ttl ttl u label d.base) db3 after _ rest3 in
      (
        a,
        ap (λ (l : List OAuthAccount). get_account name profile.provider_user_id l)
              (same3 ∙ same2 ∙ same1)
            ∙ row,
        mine ∙ sym (issue-users hs session_ttl ttl u label d.base db3 after s t rest3).1,
      )

  abbrev Identified : OAuthProvider → String → String → OAuthFlow → Session → Db → Type 0
  Identified p code verifier flow s after =
      (tokens : ProviderTokens) × (profile : ProviderProfile) × (p.exchange code flow.redirect_uri
          verifier
        ≡ some tokens)
      × (p.profile tokens ≡ some profile)
      × Linked p.name profile s.user_id after

  redeem-Identified :
      (p : OAuthProvider) (code verifier : String) (d : OAuthDraws) (flow : OAuthFlow)
      (db after : Db) (s : Session) (t : Tokens)
      → Keyed db.users
      → redeem hs session_ttl ttl p code verifier d flow db ≡ (ok (s, t), after)
      → Identified p code verifier flow s after
  unfolding redeem
  redeem-Identified p code verifier d flow db after s t keys h =
      let (tokens, db1, given, rest1) =
        >>=-ok (or_fail exchange_failed (p.exchange code flow.redirect_uri verifier)) _ db h in
      let (exchanged, same1) = or_fail-ok exchange_failed _ db given in
      let (profile, db2, fetched, rest2) =
        >>=-ok (or_fail profile_failed (p.profile tokens)) _ db1 rest1 in
      let (shown, same2) = or_fail-ok profile_failed _ db1 fetched in
      let (_, db3, full, rest3) =
        >>=-ok
          (guard (not (str_eq profile.provider_user_id "" || empty_text profile.email))
            profile_incomplete)
          _ db2 rest2 in
      let same3 =
        Keeps-guard (λ (x : Db). x)
          (not (str_eq profile.provider_user_id "" || empty_text profile.email)) profile_incomplete
          db2 db3 _ full in
      (
        tokens,
        profile,
        exchanged,
        shown,
        upsert-Linked p.name profile flow.user_agent tokens d db3 after s t
            (subst (λ (x : Db). Keyed x.users) (same1 ∙ same2 ∙ sym same3) keys)
            (with_tx-ok
              (complete_oauth_upsert hs session_ttl ttl p.name profile flow.user_agent tokens d) db3
              rest3),
      )

  consume-ok :
      (state : String) (db after : Db) (f : OAuthFlow)
      → get_and_consume state db ≡ (ok f, after)
      → (get_flow state db.flows ≡ some f) × (after.users ≡ db.users)
  unfolding get_and_consume consume_found
  consume-ok state db after f h = elim (Option-cases (get_flow state db.flows)) [
    | inl e ↦ absurd (ground (arith, e, h))
    | inr (g, e) ↦ (ground (arith, e, h), ground (arith, e, h))
  ]

  -- A completion that succeeds redeemed a stored flow of this state, the provider of this name
  -- exchanged the code and told a profile, and the session belongs to the user whom the accounts
  -- link that profile's identity to, be it an old link, one made by email, or that of a new user.
  -- The users are taken to be stored under their ids.
  pub complete_oauth-linked :
      (r : Registry) (name state code verifier : String) (d : OAuthDraws) (p : OAuthProvider)
      (db after : Db) (s : Session) (t : Tokens)
      → ((id : String) (u : User) → lookup id db.users ≡ some u → u.id ≡ id)
      → lookup name r ≡ some p
      → complete_oauth hs session_ttl ttl (some r) name state code verifier d db
        ≡ (ok (s, t), after)
      → (flow : OAuthFlow) × (get_flow state db.flows ≡ some flow)
        × ((tokens : ProviderTokens) × (profile : ProviderProfile) × (p.exchange code
                flow.redirect_uri verifier
              ≡ some tokens)
            × (p.profile tokens ≡ some profile)
            × ((a : OAuthAccount) × (get_account p.name profile.provider_user_id after.accounts
                  ≡ some a)
                × (a.user_id ≡ s.user_id)))
  unfolding complete_oauth get_provider
  complete_oauth-linked r name state code verifier d p db after s t keys found h =
      let (q, db1, got, rest1) = >>=-ok (or_fail unknown_provider (lookup name r)) _ db h in
      let (named, same1) = or_fail-ok unknown_provider _ db got in
      let same_provider : q ≡ p = ground (arith, found, named) in
      let (flow, db2, taken, rest2) = >>=-ok (with_tx (get_and_consume state)) _ db1 rest1 in
      let (stored, users) =
        consume-ok state db1 db2 flow (with_tx-ok (get_and_consume state) db1 taken) in
      let body =
        subst
          (λ (x : OAuthProvider).
            redeem hs session_ttl ttl x code verifier d flow db2 ≡ (ok (s, t), after))
          same_provider rest2 in
      (
        flow,
        subst (λ (x : Db). get_flow state x.flows ≡ some flow) (sym same1) stored,
        redeem-Identified p code verifier d flow db2 after s t
            (subst (λ (l : List (String × User)). Keyed l)
              (ap (λ (x : Db). x.users) same1 ∙ sym users) keys)
            body,
      )
