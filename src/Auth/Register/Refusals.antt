-- ===== src/Auth/Register/Refusals.antt =====
-- Registrations that the tables refuse.
use vibe_sync.Auth.Tokens.Wire.{text_eq_iff}
use vibe_sync.Base.{
  ◌⊎◌, inl, inr, List, ◌∷◌, ◌++◌, ltb, ◌≤◌, ◌≡◌, refl, true, false, Option-cases, some, String, [],
  ℤ, arith,
}
use vibe_sync.RoomService.Model.{byte_length}
use vibe_sync.Auth.Tokens.{Text, Hasher}
use vibe_sync.Auth.Store.{User, Db, err, user_exists}
use vibe_sync.Auth.Login.{get_by_email, empty_text}
use vibe_sync.Auth.Names.{NewUserParams, fine, new_user}
use vibe_sync.Auth.Transactions.{with_tx_err}
use vibe_sync.Auth.Register.{
  user_clash, create_user, RegisterDraws, registered, store_user, register_body, register, Bool,
}

clash_at :
    (same : Text → Text → Bool) (n : User) (before later : List (String × User)) (id : String)
    (v : User)
    → (same v.email n.email ≡ true) ⊎ (v.username ≡ n.username)
    → user_clash same n (before ++ (id, v) ∷ later) ≡ true
unfolding user_clash
clash_at same n [] later id v (inl e) = ground (arith, e)
clash_at same n [] later id v (inr e) = ground (arith, (text_eq_iff v.username n.username).1 e)
clash_at same n ((j, w) ∷ before) later id v h = ground (arith, clash_at same n before later id v h)

module _ (hs : Hasher) (session_ttl ttl : ℤ) where
  store_user-clash :
      (u : User) (label : String) (d : RegisterDraws) (db : Db)
      → user_clash d.base.same_email u db.users ≡ true
      → store_user hs session_ttl ttl u label d db ≡ (err (user_exists u.email), db)
  unfolding store_user create_user
  store_user-clash u label d db h = rw h refl

  register_body-clash :
      (p : NewUserParams) (password : Text) (label : String) (d : RegisterDraws) (db : Db)
      (u : User) (hash : String)
      → new_user d.lower d.base.now p ≡ fine u
      → hs.hash password ≡ some hash
      → user_clash d.base.same_email (registered u hash d) db.users ≡ true
      → register_body hs session_ttl ttl p password label d db ≡ (err (user_exists u.email), db)
  unfolding register_body registered
  register_body-clash p password label d db u hash valid hashed clash =
      elim (Option-cases (get_by_email d.base.same_email u.email db.users)) [
        | inl free ↦
            rw (valid, hashed, free) (store_user-clash (registered u hash d) label d db clash)
        | inr (v, known) ↦ rw (valid, hashed, known) refl
      ]

  -- Input that passes every check of the fields is refused with the answer that the user exists,
  -- and nothing is written, when a row of the table has an email equal to the new one, in lower
  -- case and without outer spaces, or has the new username.
  register_refused :
      (email username display password : Text) (label : String) (d : RegisterDraws) (db : Db)
      (u : User) (hash : String)
      → empty_text email ≡ false
      → empty_text username ≡ false
      → empty_text password ≡ false
      → 8 ≤ byte_length password
      → new_user d.lower d.base.now
          (record { email = email; username = username; display_name = display; avatar_url = [] })
        ≡ fine u
      → hs.hash password ≡ some hash
      → (before later : List (String × User)) (id : String) (v : User)
      → db.users ≡ before ++ (id, v) ∷ later
      → (d.base.same_email v.email u.email ≡ true) ⊎ (v.username ≡ u.username)
      → register hs session_ttl ttl email username display password label d db
        ≡ (err (user_exists u.email), db)
  unfolding register registered
  register_refused email username display password label d db u hash e1 e2 e3 long valid hashed
        before later id v rows shared =
      let clash : user_clash d.base.same_email (registered u hash d) db.users ≡ true =
        rw rows (clash_at d.base.same_email (registered u hash d) before later id v shared) in
      let long_enough : ltb (byte_length password) 8 ≡ false = ground arith in
      rw (e1, e2, e3, long_enough)
        (with_tx_err (register_body hs session_ttl ttl _ password label d) db
          (register_body-clash _ password label d db u hash valid hashed clash))
