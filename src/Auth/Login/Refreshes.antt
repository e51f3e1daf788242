-- ===== src/Auth/Login/Refreshes.antt =====
-- The refresh token of a new session is accepted by internal/app/refresh.go.
use vibe_sync.Auth.Register.Login.{IsHasher}
use vibe_sync.Auth.Store.{
  commit_or_rollback, Session, User, Db, ok, with_tx, get_by_selector, conflicts, create_session,
  create_token, or_fail, storage_failure, signing_failure,
}
use vibe_sync.Base.{
  ◌≡◌, ◌≢◌, refl, ap, ◌∙◌, subst, true, false, Option-cases, inl, inr, Option, some, String, List,
  [], ◌∷◌, ◌++◌, ℤ, ◌+ℤ◌, ltb_ℤ, arith, lookup,
}
use vibe_sync.Auth.Tokens.{
  Text, can_login, active, RefreshToken, ValidatorMaterial, presentation_token, Hasher,
  new_refresh_token, verify_validator, classify_use, split_selector_validator, cut_at_dot, rotate,
}
use vibe_sync.Auth.Tokens.Wire.{NoDot, split-presentation, text_eq_iff}
use vibe_sync.Auth.Refresh.{
  Request, Tokens, act, issue, rotate_checked, refresh_body, refresh_halves, refresh_token,
}
use vibe_sync.Auth.Transactions.{>>=-ok, or_fail-ok}
use vibe_sync.Auth.Login.{LoginDraws, new_session, issue_session_for_user}

get-new :
    (row : RefreshToken) (ts : List RefreshToken)
    → conflicts row ts ≡ false
    → get_by_selector row.selector (ts ++ row ∷ []) ≡ some row
unfolding get_by_selector conflicts
get-new row [] h = ground (arith, (text_eq_iff row.selector row.selector).1 refl)
get-new row (x ∷ xs) h = ground (arith, h, get-new row xs)

module _ (hs : Hasher) (session_ttl ttl : ℤ) where
  -- A row as `NewRefreshToken` makes it for a root of a family, from these two halves.
  abbrev Root : ℤ → User → String → Text → Text → RefreshToken → Type 0
  Root now u session selector validator row =
      (row.selector ≡ selector)
      × (hs.hash validator ≡ some row.validator_hash)
      × (row.status ≡ active)
      × (row.expires_at ≡ now +ℤ ttl)
      × (row.user_id ≡ u.id)
      × (row.session_id ≡ session)

  drawn-Root :
      (now : ℤ) (u : User) (id family session : String) (selector validator : Text)
      (row : RefreshToken) (material : ValidatorMaterial)
      → new_refresh_token hs now id family u.id session "" ttl (some selector) (some validator)
        ≡ some (row, material)
      → Root now u session selector validator row
        × (material ≡ record { selector = selector; validator = validator })
  unfolding new_refresh_token
  drawn-Root now u id family session selector validator row material h =
      elim (Option-cases (hs.hash validator)) [
        | inl e ↦ absurd (ground (arith, e, h))
        | inr (k, e) ↦ (
          (
            ground (arith, e, h),
            ground (arith, e, h),
            ground (arith, e, h),
            ground (arith, e, h),
            ground (arith, e, h),
            ground (arith, e, h),
          ),
          ground (arith, e, h),
        )
      ]

  session_kept :
      (s : Session) (db after : Db) {x : Unit {0}}
      → create_session s db ≡ (ok x, after)
      → (after.tokens ≡ db.tokens) × (after.users ≡ db.users)
  unfolding create_session
  session_kept s db after h = (ground (arith, h), ground (arith, h))

  token_added :
      (row : RefreshToken) (db after : Db) {x : Unit {0}}
      → create_token row db ≡ (ok x, after)
      → (conflicts row db.tokens ≡ false)
        × (after.tokens ≡ db.tokens ++ row ∷ [])
        × (after.users ≡ db.users)
  unfolding create_token
  token_added row db after h = (ground (arith, h), ground (arith, h), ground (arith, h))

  abbrev Stored : User → LoginDraws → Text → Text → Db → Session → Tokens → Db → Type 0
  Stored u d selector validator db s t after =
      (row : RefreshToken) × Root d.now u s.id selector validator row
      × (get_by_selector selector after.tokens ≡ some row)
      × (after.users ≡ db.users)
      × (t.refresh ≡ presentation_token (record { selector = selector; validator = validator }))

  issued-Stored :
      (u : User) (label : String) (d : LoginDraws) (selector validator : Text) (db after : Db)
      (s : Session) (t : Tokens)
      → d.selector_draw ≡ some selector
      → d.validator_draw ≡ some validator
      → issue_session_for_user hs session_ttl ttl u label d db ≡ (ok (s, t), after)
      → Stored u d selector validator db s t after
  unfolding issue_session_for_user new_session
  issued-Stored u label d selector validator db after s t ds dv h =
      let (_, db1, made, rest1) = >>=-ok (create_session _) _ db h in
      let ((row, material), db2, drawn, rest2) =
        >>=-ok
          (or_fail storage_failure (
            new_refresh_token hs d.now d.token_id d.family_id u.id d.session_id "" ttl
              d.selector_draw d.validator_draw))
          _ db1 rest1 in
      let (_, db3, stored, rest3) = >>=-ok (create_token row) _ db2 rest2 in
      let (access, db4, signed, rest4) =
        >>=-ok (or_fail signing_failure (d.access_token u)) _ db3 rest3 in
      let (exact, same1) = or_fail-ok storage_failure _ db1 drawn in
      let (root, halves) =
        drawn-Root d.now u d.token_id d.family_id d.session_id selector validator row material (
          subst
            (λ (x : Option Text).
              new_refresh_token hs d.now d.token_id d.family_id u.id d.session_id "" ttl x
                (some validator)
              ≡ some (row, material))
            ds
            (subst
              (λ (x : Option Text).
                new_refresh_token hs d.now d.token_id d.family_id u.id d.session_id "" ttl
                  d.selector_draw x
                ≡ some (row, material))
              dv exact)) in
      let (new, rows, users) = token_added row db2 db3 stored in
      let (_, users1) = session_kept _ db db1 made in
      let same2 = (or_fail-ok signing_failure _ db3 signed).1 in
      let found : get_by_selector row.selector db3.tokens ≡ some row =
        rw rows (get-new row db2.tokens new) in
      (
        row,
        ground (arith, root, rest4),
        ground (arith, root, found, same2, rest4),
        ground (arith, users, users1, same1, same2, rest4),
        ground (arith, halves, rest4),
      )

module _ (hs : Hasher) (ttl : ℤ) where
  read_halves :
      (tok selector validator : Text) (r : Request) (db : Db)
      → split_selector_validator tok ≡ some (selector, validator)
      → refresh_token hs ttl tok r db ≡ with_tx (refresh_body hs ttl selector validator r) db
  unfolding refresh_token split_selector_validator cut_at_dot
  read_halves [] selector validator r db h = absurd (ground arith)
  read_halves (c ∷ cs) selector validator r db h = ap (λ x. refresh_halves hs ttl x r db) h

  fresh_rotates :
      (row : RefreshToken) (now : ℤ)
      → row.status ≡ active
      → ltb_ℤ now row.expires_at ≡ true
      → classify_use row now ≡ rotate
  unfolding classify_use
  fresh_rotates row now a h = ground (arith, a, h)

  body_issues :
      (selector validator : Text) (row : RefreshToken) (u : User) (r : Request) (db : Db)
      → get_by_selector selector db.tokens ≡ some row
      → hs.compare row.validator_hash validator ≡ true
      → classify_use row r.now ≡ rotate
      → lookup row.user_id db.users ≡ some u
      → can_login u.status ≡ true
      → refresh_body hs ttl selector validator r db ≡ issue hs ttl row r db
  unfolding refresh_body rotate_checked act verify_validator
  body_issues selector validator row u r db found same fresh known allowed =
      ground (arith, found, same, fresh, known, allowed)

-- A session that is issued with halves drawn, none empty and no dot in the selector, to a user of the
-- table who can log in, with a hasher whose hashes match: the refresh token of the answer, sent
-- before it expires, reaches the exchange of a row of that user and session, with every check passed.
pub issued_refreshes :
    (hs : Hasher) (session_ttl ttl : ℤ) (u : User) (label : String) (d : LoginDraws)
    (selector validator : Text) (db after : Db) (s : Session) (t : Tokens) (r : Request)
    → IsHasher hs
    → d.selector_draw ≡ some selector
    → d.validator_draw ≡ some validator
    → NoDot selector
    → selector ≢ []
    → validator ≢ []
    → lookup u.id db.users ≡ some u
    → can_login u.status ≡ true
    → issue_session_for_user hs session_ttl ttl u label d db ≡ (ok (s, t), after)
    → ltb_ℤ r.now (d.now +ℤ ttl) ≡ true
    → (row : RefreshToken) × (row.session_id ≡ s.id)
      × (row.user_id ≡ u.id)
      × (refresh_token hs ttl t.refresh r after ≡ with_tx (issue hs ttl row r) after)
unfolding with_tx
issued_refreshes hs session_ttl ttl u label d selector validator db after s t r law ds dv nodot s≢
      v≢ known allowed h early =
    let (row, (_, hashed, live, until, owner, session), found, users, sent) =
      issued-Stored hs session_ttl ttl u label d selector validator db after s t ds dv h in
    let fresh = fresh_rotates hs ttl row r.now live (ap (λ x. ltb_ℤ r.now x) until ∙ early) in
    let mine : lookup row.user_id after.users ≡ some u = rw (owner, users) known in
    (
      row,
      session,
      owner,
      read_halves hs ttl t.refresh selector validator r after
            (ap split_selector_validator sent ∙ split-presentation _ nodot s≢ v≢)
          ∙ ap (commit_or_rollback after) (
              body_issues hs ttl selector validator row u r after found
                (law.hash_matches validator _ hashed) fresh mine allowed),
    )
