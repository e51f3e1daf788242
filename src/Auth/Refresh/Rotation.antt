-- ===== src/Auth/Refresh/Rotation.antt =====
-- What a successful rotation leaves behind: the presented token is spent.
use vibe_sync.Auth.Store.{
  invalid_refresh_token, account_inactive, revoke_family, commit_or_rollback, AuthError, Db,
  Session, Result, ok, err, get_by_selector, create_token, update_last_seen, update_where,
  conflicts, mark_used_row, with_tx,
}
use vibe_sync.Base.{
  sym, ◌∙◌, ◌⊎◌, eq_refl, lookup-insert_self, lookup, ℕ, ◌≡◌, refl, inl, inr, true, Bool-cases,
  some, Option-cases, str_eq, List, [], ◌∷◌, ◌++◌, ℤ, arith,
}
use vibe_sync.Auth.Tokens.{
  reuse, family_compromised, token_revoked, token_expired, can_login, Text, RefreshToken, Hasher,
  new_refresh_token, verify_validator, classify_use, mark_used, split_selector_validator,
  UseOutcome, rotate,
}
use vibe_sync.Auth.Refresh.{
  rotate_checked, Request, Tokens, act, issue, refresh_body, refresh_token,
}
use vibe_sync.Auth.Refresh.Lookup.{get-update, get-append}

commit_ok :
    {A : Type 0} (before : Db) (x : Result A × Db) (a : A) (after : Db)
    → commit_or_rollback before x ≡ (ok a, after)
    → x ≡ (ok a, after)
unfolding commit_or_rollback
commit_ok before (ok b, db) a after h = h
commit_ok before (err e, db) a after h = absurd (ground arith)

err-not_ok :
    {A : Type 0} (x : Result A × Db) (e : AuthError) (a : A) (db after : Db)
    → x ≡ (err e, db)
    → x ≡ (ok a, after)
    → ⊥
err-not_ok x e a db after failed done = ground (arith, failed, done)

-- Only the outcome `rotate` lets the request go on.
act_cases :
    (o : UseOutcome) (rt : RefreshToken) (now : ℤ) (db : Db)
    → (o ≡ rotate) ⊎ ((e : AuthError) × (mid : Db) × (act o rt now db ≡ (err e, mid)))
unfolding act revoke_family
act_cases rotate rt now db = inl refl
act_cases reuse rt now db = inr (_, _, refl)
act_cases family_compromised rt now db = inr (_, _, refl)
act_cases token_revoked rt now db = inr (_, _, refl)
act_cases token_expired rt now db = inr (_, _, refl)

spent :
    (selector : Text) (rt row : RefreshToken) (now : ℤ) (ts : List RefreshToken)
    → get_by_selector selector ts ≡ some rt
    → get_by_selector selector
        (update_where (λ t. str_eq t.id rt.id) (mark_used now) ts ++ row ∷ [])
      ≡ some (mark_used now rt)
unfolding mark_used
spent selector rt row now ts found =
    get-append selector (update_where (λ t. str_eq t.id rt.id) (mark_used now) ts) (row ∷ [])
      (mark_used now rt)
      (get-update selector (λ t. str_eq t.id rt.id) (mark_used now) ts rt (λ x. refl) found
        ∙ (rw (eq_refl rt.id) refl))

module _ (hs : Hasher) (ttl : ℤ) where
  issue_rows :
      (rt : RefreshToken) (r : Request) (db after : Db) (answer : Session × Tokens)
      → issue hs ttl rt r db ≡ (ok answer, after)
      → (new_row : RefreshToken) × (after.tokens
          ≡ update_where (λ t. str_eq t.id rt.id) (mark_used r.now) db.tokens ++ new_row ∷ [])
  unfolding issue mark_used_row create_token update_last_seen
  issue_rows rt r db after answer h =
      let rows : List RefreshToken =
        update_where (λ t. str_eq t.id rt.id) (mark_used r.now) db.tokens in
      elim (Option-cases (
        new_refresh_token hs r.now r.new_id rt.family_id rt.user_id rt.session_id rt.id ttl
          r.selector_draw r.validator_draw)) [
            | inl failed ↦ absurd (ground (arith, failed, h))
            | inr (made, built) ↦ elim (Bool-cases (conflicts made.0 rows)) [
              | inl clash ↦ absurd (ground (arith, built, clash, h))
              | inr free ↦ elim (Option-cases (lookup rt.session_id db.sessions)) [
                | inl gone ↦ elim (Option-cases (r.access_token rt.user_id)) [
                  | inl unsigned ↦ absurd (ground (arith, built, free, gone, unsigned, h))
                  | inr (access, signed) ↦ absurd (ground (arith, built, free, gone, signed, h))
                ]
                | inr (session, live) ↦ elim (Option-cases (r.access_token rt.user_id)) [
                  | inl unsigned ↦ absurd (ground (arith, built, free, live, unsigned, h))
                  | inr (access, signed) ↦ (
                    made.0,
                    ground (
                      arith,
                      built,
                      free,
                      live,
                      signed,
                      h,
                      lookup-insert_self rt.session_id (record session { last_seen_at = r.now })
                          db.sessions,
                    ),
                  )
                ]
              ]
            ]
          ]

  body_spends :
      (selector validator : Text) (r : Request) (db after : Db) (answer : Session × Tokens)
      → refresh_body hs ttl selector validator r db ≡ (ok answer, after)
      → (rt : RefreshToken) × (get_by_selector selector db.tokens ≡ some rt)
        × (classify_use rt r.now ≡ rotate)
        × (verify_validator hs rt validator ≡ true)
        × (get_by_selector selector after.tokens ≡ some (mark_used r.now rt))
  unfolding refresh_body rotate_checked act
  body_spends selector validator r db after answer h =
      elim (Option-cases (get_by_selector selector db.tokens)) [
        | inl unknown ↦ absurd (
            err-not_ok (refresh_body hs ttl selector validator r db) invalid_refresh_token answer db
              after (rw (unknown) refl) h)
        | inr (rt, found) ↦ elim (Bool-cases (verify_validator hs rt validator)) [
          | inr wrong ↦ absurd (
              err-not_ok (refresh_body hs ttl selector validator r db) invalid_refresh_token answer
                db after (rw (found, wrong) refl) h)
          | inl right ↦ elim (act_cases (classify_use rt r.now) rt r.now db) [
            | inr (e, mid, stopped) ↦ absurd (
                err-not_ok (refresh_body hs ttl selector validator r db) e answer mid after
                  (rw (found, right, stopped) refl) h)
            | inl rotates ↦ elim (Option-cases (lookup rt.user_id db.users)) [
              | inl nobody ↦ absurd (
                  err-not_ok (refresh_body hs ttl selector validator r db) invalid_refresh_token
                    answer db after (rw (found, right, rotates, nobody) refl) h)
              | inr (u, user) ↦ elim (Bool-cases (can_login u.status)) [
                | inr barred ↦ absurd (
                    err-not_ok (refresh_body hs ttl selector validator r db) account_inactive answer
                      db after (rw (found, right, rotates, user, barred) refl) h)
                | inl allowed ↦
                    let same : refresh_body hs ttl selector validator r db ≡ issue hs ttl rt r db =
                      rw (found, right, rotates, user, allowed) refl in
                    let issued : issue hs ttl rt r db ≡ (ok answer, after) = sym same ∙ h in
                    let (row, rows) = issue_rows rt r db after answer issued in
                    (
                      rt,
                      found,
                      rotates,
                      right,
                      rw rows (spent selector rt row r.now db.tokens found),
                    )
              ]
            ]
          ]
        ]
      ]

  -- A rotation that succeeds was of a token whose selector was found, whose validator matches and
  -- whose use counts as a rotation; afterwards the same selector finds that row marked as used.
  pub rotation_spends :
      (c : ℕ) (cs selector validator : Text) (r : Request) (db after : Db)
      (answer : Session × Tokens)
      → split_selector_validator (c ∷ cs) ≡ some (selector, validator)
      → refresh_token hs ttl (c ∷ cs) r db ≡ (ok answer, after)
      → (rt : RefreshToken) × (get_by_selector selector db.tokens ≡ some rt)
        × (classify_use rt r.now ≡ rotate)
        × (verify_validator hs rt validator ≡ true)
        × (get_by_selector selector after.tokens ≡ some (mark_used r.now rt))
  unfolding refresh_token with_tx
  rotation_spends c cs selector validator r db after answer halves h =
      let same : refresh_token hs ttl (c ∷ cs) r db
          ≡ commit_or_rollback db (refresh_body hs ttl selector validator r db) =
        rw halves refl in
      body_spends selector validator r db after answer
        (commit_ok db (refresh_body hs ttl selector validator r db) answer after (sym same ∙ h))
