-- ===== src/Auth/Refresh/Reuse.antt =====
-- What becomes of the family-wide revocation when a used token is presented again.
use vibe_sync.Base.{ℕ, ◌≡◌, true, some, str_eq, ◌∷◌, All, ℤ, ◌<ℤ◌}
use vibe_sync.Auth.Tokens.{
  Text, RefreshToken, used, compromised, Hasher, verify_validator, classify_use, reuse,
  mark_compromised, split_selector_validator,
}
use vibe_sync.Auth.Tokens.Use.{classify_use_table}
use vibe_sync.Auth.Store.{
  Db, err, reuse_detected, with_tx, get_by_selector, revoke_family, update_where, in_family,
}
use vibe_sync.Auth.Refresh.{Request, act, refresh_body, refresh_token}
use vibe_sync.Auth.Refresh.Lookup.{family_burned}

module _ (hs : Hasher) (ttl : ℤ) where
  reuse_body :
      (selector validator : Text) (r : Request) (db : Db) (rt : RefreshToken)
      → get_by_selector selector db.tokens ≡ some rt
      → verify_validator hs rt validator ≡ true
      → classify_use rt r.now ≡ reuse
      → refresh_body hs ttl selector validator r db ≡ (
        err (reuse_detected rt.family_id),
        record db {
          tokens = update_where (in_family rt.family_id) (mark_compromised r.now) db.tokens;
        },
      )
  unfolding refresh_body act revoke_family
  reuse_body selector validator r db rt found good again = rw (found, good, again)

  -- Reuse of a used token that has not expired is answered with REUSE_DETECTED. The statements
  -- compromise every token of the family, but the answer is an error, so the transaction is rolled
  -- back: the tables are what they were before the request.
  pub reuse_rolled_back :
      (c : ℕ) (cs selector validator : Text) (r : Request) (db : Db) (rt : RefreshToken)
      → split_selector_validator (c ∷ cs) ≡ some (selector, validator)
      → get_by_selector selector db.tokens ≡ some rt
      → verify_validator hs rt validator ≡ true
      → rt.status ≡ used
      → r.now <ℤ rt.expires_at
      → let statements = refresh_body hs ttl selector validator r db in
        All
          (λ t. str_eq t.family_id rt.family_id ≡ true → t.status ≡ compromised)
          (statements.1).tokens
        × (refresh_token hs ttl (c ∷ cs) r db ≡ (err (reuse_detected rt.family_id), db))
  unfolding refresh_token with_tx
  reuse_rolled_back c cs selector validator r db rt halves found good was_used fresh =
      let again = (classify_use_table rt r.now).1.1 (was_used, fresh) in
      let body = reuse_body selector validator r db rt found good again in
      (rw body (family_burned rt.family_id r.now db.tokens), rw (halves, body))
