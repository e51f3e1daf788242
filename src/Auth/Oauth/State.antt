-- ===== src/Auth/Oauth/State.antt =====
-- A state is redeemed once.
use vibe_sync.Auth.Store.{linked_user_missing}
use vibe_sync.Auth.Store.{
  OAuthAccount, User, OAuthFlow, Db, bad_state, err, Tx, with_tx, commit_or_rollback,
  storage_failure, oauth_login_denied,
}
use vibe_sync.Auth.Oauth.Frame.{
  kept, create_user-Keeps, stage_created-Keeps, save_provider_tokens-Keeps, issue-Keeps,
}
use vibe_sync.Auth.Oauth.{
  ProviderTokens, ProviderProfile, OAuthProvider, Registry, get_provider, OAuthDraws,
  save_provider_tokens, create_linked, user_by_email, user_of_account, find_or_create,
  valid_profile, complete_oauth_upsert, redeem, complete_oauth,
}
use vibe_sync.Auth.OauthTables.{
  get_account, get_flow, delete_flow, get_and_consume, consume_found, upsert_account,
}
use vibe_sync.Base.{
  ◌≡◌, refl, ap, inl, inr, Bool-cases, Option-cases, ◌||◌, Option, none, some, String, str_eq, List,
  [], ◌∷◌, ℤ, arith, lookup,
}
use vibe_sync.Auth.Transactions.{
  Keeps, Keeps->>=, Keeps-or_fail, Keeps-guard, Keeps-pure, with_tx_keeps,
}
use vibe_sync.Auth.Tokens.{Hasher, can_login}
use vibe_sync.Auth.Refresh.{guard}
use vibe_sync.Auth.Login.{get_by_email, issue_session_for_user, empty_text}
use vibe_sync.Auth.Names.{NewUser, refused, fine}
use vibe_sync.Auth.Register.{create_user, stage_created}

get_flow-delete_flow :
    (state : String) (fs : List OAuthFlow) → get_flow state (delete_flow state fs) ≡ none
unfolding get_flow delete_flow
get_flow-delete_flow state [] = refl
get_flow-delete_flow state (f ∷ fs) = ground (arith, get_flow-delete_flow state fs)

abbrev flows : Db → List OAuthFlow
flows db = db.flows

abbrev of_kept : {A : Type 0} (m : Tx A) → Keeps kept m → Keeps flows m
of_kept m h db after a e = ap (λ (x : List OAuthFlow × List OAuthAccount). x.0) (h db after a e)

upsert_account-flows : (e : _) → Keeps flows (upsert_account e)
unfolding upsert_account
upsert_account-flows e db after a h = ground (arith, h)

create_linked-flows :
    (u : User) (name : String) (profile : ProviderProfile) (d : OAuthDraws)
    → Keeps flows (create_linked u name profile d)
unfolding create_linked
create_linked-flows u name profile d =
    Keeps->>= flows (create_user storage_failure d.base.same_email u) _
      (of_kept (create_user storage_failure d.base.same_email u) (create_user-Keeps _ _ u))
      λ _. Keeps->>= flows (upsert_account _) _ (upsert_account-flows _) λ _.
        Keeps->>= flows (stage_created _) _ (of_kept (stage_created _) (stage_created-Keeps _))
          λ _. Keeps-pure flows u

valid_profile-flows : (c : NewUser) → Keeps flows (valid_profile c)
valid_profile-flows (refused e) db after a h = absurd (ground (arith, h))
valid_profile-flows (fine u) db after a h = ground (arith, h)

user_by_email-flows :
    (o : Option User) (name : String) (profile : ProviderProfile) (d : OAuthDraws)
    → Keeps flows (user_by_email o name profile d)
unfolding user_by_email
user_by_email-flows (some u) name profile d =
    Keeps->>= flows (upsert_account _) _ (upsert_account-flows _) λ _. Keeps-pure flows u
user_by_email-flows none name profile d =
    Keeps->>= flows (valid_profile _) _ (valid_profile-flows _)
      λ u. create_linked-flows (record u { id = d.user_id }) name profile d

user_of_account-flows :
    (o : Option OAuthAccount) (name : String) (profile : ProviderProfile) (d : OAuthDraws)
    → Keeps flows (user_of_account o name profile d)
unfolding user_of_account
user_of_account-flows (some a) name profile d db =
    Keeps-or_fail flows linked_user_missing (lookup a.user_id db.users) db
user_of_account-flows none name profile d db =
    user_by_email-flows (get_by_email d.base.same_email profile.email db.users) name profile d db

module _ (hs : Hasher) (session_ttl ttl : ℤ) where
  upsert-flows :
      (name : String) (profile : ProviderProfile) (label : String) (tokens : ProviderTokens)
      (d : OAuthDraws)
      → Keeps flows (complete_oauth_upsert hs session_ttl ttl name profile label tokens d)
  unfolding complete_oauth_upsert
  upsert-flows name profile label tokens d =
      Keeps->>= flows (find_or_create name profile d) _
        (λ db.
          user_of_account-flows (get_account name profile.provider_user_id db.accounts) name profile
            d db)
        λ u.
          Keeps->>= flows (guard (can_login u.status) (oauth_login_denied u.id)) _
            (Keeps-guard flows _ _)
            λ _.
              Keeps->>= flows (save_provider_tokens name u.id tokens d) _
                (of_kept (save_provider_tokens name u.id tokens d)
                  (save_provider_tokens-Keeps name u.id tokens d))
                λ _.
                  of_kept (issue_session_for_user hs session_ttl ttl u label d.base)
                    (issue-Keeps hs session_ttl ttl u label d.base)

  redeem-flows :
      (provider : OAuthProvider) (code verifier : String) (d : OAuthDraws) (flow : OAuthFlow)
      (db : Db)
      → (redeem hs session_ttl ttl provider code verifier d flow db).1.flows ≡ db.flows
  unfolding redeem
  redeem-flows provider code verifier d flow db =
      elim (Option-cases (provider.exchange code flow.redirect_uri verifier)) [
        | inl e ↦ rw e refl
        | inr (tokens, e) ↦ rw e (elim (Option-cases (provider.profile tokens)) [
          | inl bare ↦ rw bare refl
          | inr (profile, fetched) ↦
              rw fetched
                (elim (Bool-cases
                  (str_eq profile.provider_user_id "" || empty_text profile.email)) [
                    | inl short ↦ rw short refl
                    | inr full ↦ rw full (
                        with_tx_keeps flows
                          (complete_oauth_upsert hs session_ttl ttl provider.name profile
                            flow.user_agent tokens d)
                          db (upsert-flows provider.name profile flow.user_agent tokens d))
                  ])
        ])
      ]

  no_flow-bad_state :
      (r : Registry) (name state code verifier : String) (d : OAuthDraws) (p : OAuthProvider)
      (db : Db)
      → lookup name r ≡ some p
      → get_flow state db.flows ≡ none
      → complete_oauth hs session_ttl ttl (some r) name state code verifier d db
        ≡ (err bad_state, db)
  unfolding complete_oauth get_provider get_and_consume consume_found with_tx commit_or_rollback
  no_flow-bad_state r name state code verifier d p db found gone = rw (found, gone) refl

  consumed :
      (r : Registry) (name state code verifier : String) (d : OAuthDraws) (p : OAuthProvider)
      (db : Db)
      → lookup name r ≡ some p
      → get_flow state
          (complete_oauth hs session_ttl ttl (some r) name state code verifier d db).1.flows
        ≡ none
  unfolding complete_oauth get_provider get_and_consume consume_found with_tx commit_or_rollback
  consumed r name state code verifier d p db found =
      rw found (elim (Option-cases (get_flow state db.flows)) [
        | inl e ↦ rw e e
        | inr (flow, e) ↦
            rw
              (
                e,
                redeem-flows p code verifier d flow
                    (record db { flows = delete_flow state db.flows }),
              )
              (get_flow-delete_flow state db.flows)
      ])

  -- Whatever the first completion of a flow with a configured provider came to, a later one with
  -- the same state, through the same or another configured provider, is refused as a bad state and
  -- changes nothing.
  pub state_spent :
      (r : Registry) (name name' state code code' verifier verifier' : String) (d d' : OAuthDraws)
      (p p' : OAuthProvider) (db : Db)
      → lookup name r ≡ some p
      → lookup name' r ≡ some p'
      → complete_oauth hs session_ttl ttl
          (some r)
          name'
          state
          code'
          verifier'
          d'
          (complete_oauth hs session_ttl ttl (some r) name state code verifier d db).1
        ≡ (
          err bad_state,
          (complete_oauth hs session_ttl ttl (some r) name state code verifier d db).1,
        )
  state_spent r name name' state code code' verifier verifier' d d' p p' db found found' =
      no_flow-bad_state r name' state code' verifier' d' p'
        (complete_oauth hs session_ttl ttl (some r) name state code verifier d db).1 found'
        (consumed r name state code verifier d p db found)
