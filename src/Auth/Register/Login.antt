-- ===== src/Auth/Register/Login.antt =====
-- Registration and login together.
use vibe_sync.Base.{
  ◌≡◌, refl, sym, ◌∙◌, ltb, inl, inr, Bool, true, false, Bool-cases, ◌||◌, none, some, String,
  str_eq, List, [], ◌∷◌, ◌++◌, ℤ, arith, if_false,
}
use vibe_sync.RoomService.Model.{byte_length, trim_space}
use vibe_sync.Auth.Tokens.{Text, Hasher, UserStatus}
use vibe_sync.Auth.Store.{Session, User, Db, ok, err, missing_fields, password_too_short, with_tx}
use vibe_sync.Auth.Refresh.{Tokens}
use vibe_sync.Auth.Login.{
  LoginDraws, get_by_email, issue_session_for_user, login_user, login_body, empty_text, login,
}
use vibe_sync.Auth.Names.{NewUserParams, fine, new_user}
use vibe_sync.Auth.Transactions.{with_tx-ok}
use vibe_sync.Auth.Register.Rows.{register_body-Registered}
use vibe_sync.Auth.Register.{RegisterDraws, registered, register_body, register}

-- The equality of CITEXT is an equivalence.
pub record IsSameText (same : Text → Text → Bool) : Type 0 where
  pub same_refl : (a : Text) → same a a ≡ true
  pub same_right : (a b c : Text) → same a b ≡ true → same c a ≡ same c b

-- A password matches its own hash, which is not empty.
pub record IsHasher (hs : Hasher) : Type 0 where
  pub hash_matches : (v : Text) (h : String) → hs.hash v ≡ some h → hs.compare h v ≡ true
  pub hash_filled : (v : Text) (h : String) → hs.hash v ≡ some h → str_eq h "" ≡ false

module _ (same : Text → Text → Bool) where
  get_by_email-append :
      (e : Text) (id : String) (u : User) (us : List (String × User))
      → get_by_email same e us ≡ none
      → same u.email e ≡ true
      → get_by_email same e (us ++ (id, u) ∷ []) ≡ some u
  unfolding get_by_email
  get_by_email-append e id u [] h k = ground (arith, k)
  get_by_email-append e id u ((j, v) ∷ us) h k = ground (arith, h, k, get_by_email-append e id u us)

  get_by_email-same :
      (laws : IsSameText same) (a b : Text) (us : List (String × User))
      → same a b ≡ true
      → get_by_email same a us ≡ get_by_email same b us
  unfolding get_by_email
  get_by_email-same laws a b [] k = refl
  get_by_email-same laws a b ((j, v) ∷ us) k =
      ground (arith, laws.same_right a b v.email k, get_by_email-same laws a b us k)

module _ (hs : Hasher) (session_ttl ttl : ℤ) where
  new_user-fields :
      (lower : Text → Text) (now : ℤ) (p : NewUserParams) (u : User)
      → new_user lower now p ≡ fine u
      → (u.email ≡ trim_space (lower p.email)) × (u.status ≡ UserStatus.active)
  unfolding new_user
  new_user-fields lower now p u h = (ground (arith, h), ground (arith, h))

  abbrev typed : Text → Text → Text → NewUserParams
  typed email username display = record {
    email = email;
    username = username;
    display_name = display;
    avatar_url = [];
  }

  register-body :
      (email username display password : Text) (label : String) (d : RegisterDraws) (db after : Db)
      (a : Session × Tokens)
      → register hs session_ttl ttl email username display password label d db ≡ (ok a, after)
      → (empty_text password ≡ false)
        × (register_body hs session_ttl ttl (typed email username display) password label d db
            ≡ (ok a, after))
  unfolding register
  register-body email username display password label d db after a h =
      elim (Bool-cases (empty_text email || (empty_text username || empty_text password))) [
        | inl blank ↦ absurd (ground (arith, blank, h))
        | inr given ↦ elim (Bool-cases (ltb (byte_length password) 8)) [
          | inl short ↦ absurd (ground (arith, given, short, h))
          | inr long ↦ (
            ground (arith, given),
            with_tx-ok
                (register_body hs session_ttl ttl (typed email username display) password label d)
                db
                (if_false (err password_too_short, db) _ long
                  ∙ if_false (err missing_fields, db) _ given
                  ∙ h),
          )
        ]
      ]

  login_user-passes :
      (u : User) (password : Text) (label : String) (d : LoginDraws) (db : Db)
      → str_eq u.password_hash "" ≡ false
      → hs.compare u.password_hash password ≡ true
      → u.status ≡ UserStatus.active
      → login_user hs session_ttl ttl u password label d db
        ≡ issue_session_for_user hs session_ttl ttl u label d db
  unfolding login_user
  login_user-passes u password label d db filled right live = rw (filled, right, live) refl

  login-finds :
      (u : User) (email password : Text) (label : String) (d : LoginDraws) (db : Db)
      → empty_text email ≡ false
      → empty_text password ≡ false
      → get_by_email d.same_email email db.users ≡ some u
      → str_eq u.password_hash "" ≡ false
      → hs.compare u.password_hash password ≡ true
      → u.status ≡ UserStatus.active
      → login hs session_ttl ttl email password label d db
        ≡ with_tx (issue_session_for_user hs session_ttl ttl u label d) db
  unfolding login login_body with_tx
  login-finds u email password label d db given typed found filled right live =
      rw (given, typed, found, login_user-passes u password label d db filled right live) refl

  -- After a registration that succeeded, a login with the same password and an email that CITEXT
  -- holds equal to the registered one in lower case without outer spaces passes every check: it is
  -- the issue of a session for the user whom the registration made and gave its session to. CITEXT
  -- is taken to compare by an equivalence, and a password to match its own hash.
  pub register-login :
      (email username display password : Text) (label : String) (d : RegisterDraws) (db after : Db)
      (s : Session) (t : Tokens)
      → IsSameText d.base.same_email
      → IsHasher hs
      → register hs session_ttl ttl email username display password label d db ≡ (ok (s, t), after)
      → (entered : Text) (label' : String) (d' : LoginDraws) → d'.same_email ≡ d.base.same_email
      → empty_text entered ≡ false
      → d.base.same_email (trim_space (d.lower email)) entered ≡ true
      → (u : User) × (u.id ≡ s.user_id)
        × (u.email ≡ trim_space (d.lower email))
        × (login hs session_ttl ttl entered password label' d' after
            ≡ with_tx (issue_session_for_user hs session_ttl ttl u label' d') after)
  unfolding registered
  register-login email username display password label d db after s t texts hashes h entered label'
        d' same given equal =
      let (filled, body) =
        register-body email username display password label d db after (s, t) h in
      let (u, hash, valid, hashed, free, rows, mine) =
        register_body-Registered hs session_ttl ttl (typed email username display) password label d
          db after s t body in
      let (mail, live) =
        new_user-fields d.lower d.base.now (typed email username display) u valid in
      let near : d.base.same_email u.email entered ≡ true = rw mail equal in
      let none_before : get_by_email d.base.same_email entered db.users ≡ none =
        sym (get_by_email-same d.base.same_email texts u.email entered db.users near) ∙ free in
      let found : get_by_email d'.same_email entered after.users ≡ some (registered u hash d) =
        rw (same, rows)
          (get_by_email-append d.base.same_email entered d.user_id (registered u hash d) db.users
            none_before near) in
      (
        registered u hash d,
        sym mine,
        mail,
        login-finds (registered u hash d) entered password label' d' after given filled found
            (hashes.hash_filled password hash hashed) (hashes.hash_matches password hash hashed)
            live,
      )
