-- ===== src/Auth/Login/Grants.antt =====
-- Who gets a session, and what a refused login leaves.
use vibe_sync.Base.{
  ◌≡◌, ◌∙◌, inl, inr, Bool, true, false, Bool-cases, Option-cases, ◌||◌, ◌&&◌, Option, none, some,
  String, str_eq, [], ◌∷◌, ◌++◌, ℤ, arith, if_false,
}
use vibe_sync.Auth.Tokens.{
  Text, can_login, RefreshToken, ValidatorMaterial, Hasher, new_refresh_token,
}
use vibe_sync.Auth.Store.{
  Session, User, Db, Result, ok, err, missing_credentials, with_tx, commit_or_rollback,
  session_clash, create_session, conflicts, create_token,
}
use vibe_sync.Auth.Refresh.{Tokens}
use vibe_sync.Auth.Login.{
  LoginDraws, get_by_email, has_password, new_session, issue_session_for_user, login_user,
  login_body, empty_text, login,
}

module _ (hs : Hasher) (session_ttl ttl : ℤ) where
  -- A session that was issued, and its first token.
  abbrev Issued : User → Db → Session → Db → Type 0
  Issued u db s after =
      (row : RefreshToken) × (after.tokens ≡ db.tokens ++ row ∷ [])
      × (row.user_id ≡ u.id)
      × (row.session_id ≡ s.id)
      × (row.family_id ≡ s.family_id)
      × (s.user_id ≡ u.id)

  new_refresh_token-fields :
      (now : ℤ) (id family user session : String) (selector validator : Option Text)
      (row : RefreshToken) (material : ValidatorMaterial)
      → new_refresh_token hs now id family user session "" ttl selector validator
        ≡ some (row, material)
      → (row.user_id ≡ user) × (row.session_id ≡ session) × (row.family_id ≡ family)
  unfolding new_refresh_token
  new_refresh_token-fields now id family user session (some a) (some b) row material h =
      elim (Option-cases (hs.hash b)) [
        | inl e ↦ absurd (ground (arith, e, h))
        | inr (k, e) ↦ ground (arith, e, h)
      ]
  new_refresh_token-fields now id family user session none b row material h = cc
  new_refresh_token-fields now id family user session (some a) none row material h = cc

  issue-Issued :
      (u : User) (label : String) (d : LoginDraws) (db after : Db) (s : Session) (t : Tokens)
      → issue_session_for_user hs session_ttl ttl u label d db ≡ (ok (s, t), after)
      → Issued u db s after
  unfolding issue_session_for_user create_session create_token new_session
  issue-Issued u label d db after s t h =
      let fresh = new_session d.now d.session_id u.id d.family_id session_ttl label in
      elim (Bool-cases (session_clash fresh db.sessions)) [
        | inl clash ↦ absurd (ground (arith, clash, h))
        | inr free ↦
            elim (Option-cases (
              new_refresh_token hs d.now d.token_id d.family_id u.id d.session_id "" ttl
                d.selector_draw d.validator_draw)) [
                  | inl e ↦ absurd (ground (arith, free, e, h))
                  | inr ((row, material), e) ↦
                      let fields =
                        new_refresh_token-fields d.now d.token_id d.family_id u.id d.session_id
                          d.selector_draw d.validator_draw row material e in
                      elim (Bool-cases (conflicts row db.tokens)) [
                        | inl clash ↦ absurd (ground (arith, free, e, clash, h))
                        | inr new ↦ elim (Option-cases (d.access_token u)) [
                          | inl unsigned ↦ absurd (ground (arith, free, e, new, unsigned, h))
                          | inr (access, signed) ↦ (
                            row,
                            ground (arith, free, e, new, signed, h),
                            ground (arith, fields),
                            ground (arith, free, e, new, signed, h, fields),
                            ground (arith, free, e, new, signed, h, fields),
                            ground (arith, free, e, new, signed, h),
                          )
                        ]
                      ]
                ]
      ]

  -- The user with this email has this password.
  abbrev pub authenticates : Option User → Text → Bool
  authenticates none password = false
  authenticates (some u) password = has_password u && hs.compare u.password_hash password

  commit-ok :
      (db : Db) (x : Result (Session × Tokens) × Db) (a : Session × Tokens) (after : Db)
      → commit_or_rollback db x ≡ (ok a, after)
      → x ≡ (ok a, after)
  unfolding commit_or_rollback
  commit-ok db (ok b, mid) a after h = h
  commit-ok db (err e, mid) a after h = ground (arith, h)

  login_user-Issued :
      (u : User) (password : Text) (label : String) (d : LoginDraws) (db after : Db) (s : Session)
      (t : Tokens)
      → login_user hs session_ttl ttl u password label d db ≡ (ok (s, t), after)
      → (has_password u ≡ true)
        × (hs.compare u.password_hash password ≡ true)
        × (can_login u.status ≡ true)
        × Issued u db s after
  unfolding login_user
  login_user-Issued u password label d db after s t h =
      elim (Bool-cases (str_eq u.password_hash "")) [
        | inl bare ↦ absurd (ground (arith, bare, h))
        | inr has ↦ elim (Bool-cases (hs.compare u.password_hash password)) [
          | inr wrong ↦ absurd (ground (arith, has, wrong, h))
          | inl right ↦ elim (Bool-cases (can_login u.status)) [
            | inr barred ↦ absurd (ground (arith, has, right, barred, h))
            | inl fine ↦ (
              ground (arith, has),
              right,
              fine,
              issue-Issued u label d db after s t (ground (arith, has, right, fine, h)),
            )
          ]
        ]
      ]

  login-body :
      (email : Text) (password : Text) (label : String) (d : LoginDraws) (db after : Db)
      (a : Session × Tokens)
      → login hs session_ttl ttl email password label d db ≡ (ok a, after)
      → login_body hs session_ttl ttl email password label d db ≡ (ok a, after)
  unfolding login with_tx
  login-body email password label d db after a h =
      elim (Bool-cases (empty_text email || empty_text password)) [
        | inl blank ↦ absurd (ground (arith, blank, h))
        | inr given ↦
            commit-ok db (login_body hs session_ttl ttl email password label d db) a after (
              if_false (err missing_credentials, db)
                (commit_or_rollback db (login_body hs session_ttl ttl email password label d db))
                given
              ∙ h)
      ]

  -- A login that succeeds is that of an active user with this email and this password, who has a
  -- password at all; the session is that user's, and the only new token is one for this user in
  -- the session and its family.
  pub login_grants :
      (email : Text) (password : Text) (label : String) (d : LoginDraws) (db after : Db)
      (s : Session) (t : Tokens)
      → login hs session_ttl ttl email password label d db ≡ (ok (s, t), after)
      → (u : User) × (get_by_email d.same_email email db.users ≡ some u)
        × (has_password u ≡ true)
        × (hs.compare u.password_hash password ≡ true)
        × (can_login u.status ≡ true)
        × ((row : RefreshToken) × (after.tokens ≡ db.tokens ++ row ∷ [])
            × (row.user_id ≡ u.id)
            × (row.session_id ≡ s.id)
            × (row.family_id ≡ s.family_id)
            × (s.user_id ≡ u.id))
  unfolding login_body
  login_grants email password label d db after s t h =
      let body = login-body email password label d db after (s, t) h in
      elim (Option-cases (get_by_email d.same_email email db.users)) [
        | inl e ↦ absurd (ground (arith, e, body))
        | inr (u, e) ↦
            let done : login_user hs session_ttl ttl u password label d db ≡ (ok (s, t), after) =
              ground (arith, e, body) in
            let (has, right, fine, issued) =
              login_user-Issued u password label d db after s t done in
            (u, e, has, right, fine, issued)
      ]
