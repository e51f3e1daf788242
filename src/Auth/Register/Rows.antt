-- ===== src/Auth/Register/Rows.antt =====
-- The tables after the issue of a session, and after a registration.
use vibe_sync.Base.{
  ◌≡◌, refl, sym, ◌∙◌, subst, Bool, Option, none, some, String, [], ◌∷◌, ◌++◌, ℤ, arith,
}
use vibe_sync.Auth.Tokens.{Text, Hasher, new_refresh_token}
use vibe_sync.Auth.Store.{
  Session, User, Db, ok, user_exists, create_session, create_token, or_fail, storage_failure,
  signing_failure, password_hash_failed,
}
use vibe_sync.Auth.Refresh.{Tokens}
use vibe_sync.Auth.Login.{LoginDraws, get_by_email, new_session, issue_session_for_user}
use vibe_sync.Auth.Names.{NewUserParams, NewUser, refused, fine, new_user}
use vibe_sync.Auth.Transactions.{>>=-ok, or_fail-ok}
use vibe_sync.Auth.Register.{
  create_user, stage_created, RegisterDraws, valid_user, no_such_user, registered, store_user,
  register_body,
}

module _ (hs : Hasher) (session_ttl ttl : ℤ) where
  create_session-users :
      (s : Session) (db after : Db) {u : Unit {0}}
      → create_session s db ≡ (ok u, after)
      → after.users ≡ db.users
  unfolding create_session
  create_session-users s db after h = ground (arith, h)

  create_token-users :
      (t : _) (db after : Db) {u : Unit {0}}
      → create_token t db ≡ (ok u, after)
      → after.users ≡ db.users
  unfolding create_token
  create_token-users t db after h = ground (arith, h)

  pub issue-users :
      (u : User) (label : String) (d : LoginDraws) (db after : Db) (s : Session) (t : Tokens)
      → issue_session_for_user hs session_ttl ttl u label d db ≡ (ok (s, t), after)
      → (after.users ≡ db.users) × (s.user_id ≡ u.id)
  unfolding issue_session_for_user new_session
  issue-users u label d db after s t h =
      let (_, db1, made, rest1) =
        >>=-ok (create_session (new_session d.now d.session_id u.id d.family_id session_ttl label))
          _ db h in
      let ((row, material), db2, drawn, rest2) =
        >>=-ok
          (or_fail storage_failure (
            new_refresh_token hs d.now d.token_id d.family_id u.id d.session_id "" ttl
              d.selector_draw d.validator_draw))
          _ db1 rest1 in
      let (_, db3, stored, rest3) = >>=-ok (create_token row) _ db2 rest2 in
      let (access, db4, signed, rest4) =
        >>=-ok (or_fail signing_failure (d.access_token u)) _ db3 rest3 in
      (
        ground (
          arith,
          create_session-users _ db db1 made,
          (or_fail-ok storage_failure _ db1 drawn).1,
          create_token-users row db2 db3 stored,
          (or_fail-ok signing_failure _ db3 signed).1,
          rest4,
        ),
        ground (arith, rest4),
      )

  pub create_user-users :
      (clash : _) (same : Text → Text → Bool) (u : User) (db after : Db) {x : Unit {0}}
      → create_user clash same u db ≡ (ok x, after)
      → after.users ≡ db.users ++ (u.id, u) ∷ []
  unfolding create_user
  create_user-users clash same u db after h = ground (arith, h)

  pub stage_created-users :
      (e : _) (db after : Db) {x : Unit {0}}
      → stage_created e db ≡ (ok x, after)
      → after.users ≡ db.users
  unfolding stage_created
  stage_created-users e db after h = ground (arith, h)

  store_user-users :
      (u : User) (label : String) (d : RegisterDraws) (db after : Db) (s : Session) (t : Tokens)
      → store_user hs session_ttl ttl u label d db ≡ (ok (s, t), after)
      → (after.users ≡ db.users ++ (u.id, u) ∷ []) × (s.user_id ≡ u.id)
  unfolding store_user
  store_user-users u label d db after s t h =
      let (_, db1, made, rest1) =
        >>=-ok (create_user (user_exists u.email) d.base.same_email u) _ db h in
      let (_, db2, staged, rest2) = >>=-ok (stage_created _) _ db1 rest1 in
      let (kept, mine) = issue-users u label d.base db2 after s t rest2 in
      (
        kept
            ∙ stage_created-users _ db1 db2 staged
            ∙ create_user-users _ d.base.same_email u db db1 made,
        mine,
      )

  valid_user-fine :
      (c : NewUser) (db after : Db) {u : User}
      → valid_user c db ≡ (ok u, after)
      → (c ≡ fine u) × (db ≡ after)
  valid_user-fine (refused e) db after h = absurd (ground (arith, h))
  valid_user-fine (fine v) db after h = (ground (arith, h), ground (arith, h))

  no_such_user-none :
      (o : Option User) (e : _) (db after : Db) {x : Unit {0}}
      → no_such_user o e db ≡ (ok x, after)
      → (o ≡ none) × (db ≡ after)
  no_such_user-none none e db after h = (refl, ground (arith, h))
  no_such_user-none (some u) e db after h = absurd (ground (arith, h))

  abbrev pub Registered : NewUserParams → Text → RegisterDraws → Db → Session → Db → Type 0
  Registered p password d db s after =
      (u : User) × (hash : String) × (new_user d.lower d.base.now p ≡ fine u)
      × (hs.hash password ≡ some hash)
      × (get_by_email d.base.same_email u.email db.users ≡ none)
      × (after.users ≡ db.users ++ (d.user_id, registered u hash d) ∷ [])
      × (s.user_id ≡ d.user_id)

  pub register_body-Registered :
      (p : NewUserParams) (password : Text) (label : String) (d : RegisterDraws) (db after : Db)
      (s : Session) (t : Tokens)
      → register_body hs session_ttl ttl p password label d db ≡ (ok (s, t), after)
      → Registered p password d db s after
  unfolding register_body registered
  register_body-Registered p password label d db after s t h =
      let (u, db1, checked, rest1) = >>=-ok (valid_user (new_user d.lower d.base.now p)) _ db h in
      let (valid, same1) = valid_user-fine _ db db1 checked in
      let (hash, db2, hashed, rest2) =
        >>=-ok (or_fail password_hash_failed (hs.hash password)) _ db1 rest1 in
      let (known, same2) = or_fail-ok _ _ db1 hashed in
      let (_, db3, new, rest3) =
        >>=-ok
          (λ db'.
            no_such_user (get_by_email d.base.same_email u.email db'.users) (user_exists u.email)
              db')
          _ db2 rest2 in
      let (free, same3) = no_such_user-none _ _ db2 db3 new in
      let (rows, mine) = store_user-users (registered u hash d) label d db3 after s t rest3 in
      let back : db3 ≡ db = sym same3 ∙ sym same2 ∙ sym same1 in
      (
        u,
        hash,
        valid,
        known,
        subst (λ (x : Db). get_by_email d.base.same_email u.email x.users ≡ none)
            (sym same2 ∙ sym same1) free,
        subst (λ (x : Db). after.users ≡ x.users ++ (d.user_id, registered u hash d) ∷ []) back
            rows,
        mine,
      )
