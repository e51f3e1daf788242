-- ===== src/Auth/ProviderTokens/Served.antt =====
-- A token that was given is given again.
use vibe_sync.Base.{
  ◌+ℤ◌, false, ◌⊎◌, pos, negsuc, ltb_ℤ, lookup, ◌≡◌, refl, ◌∙◌, subst, Bool, true, ◌||◌, Bool-cases,
  inl, inr, Option, some, String, str_eq, eq_refl, List, [], ◌∷◌, ℤ, arith,
}
use vibe_sync.Auth.OauthTables.{micros, put_provider_token, upsert_provider_token}
use vibe_sync.Auth.ProviderTokens.{
  as_stored_or_new, find_provider_token, TokenDraws, refresh_provider_token, usable, refresh_stored,
  serve_stored, get_known, get_provider_token,
}
use vibe_sync.Auth.Store.{
  ProviderToken, Db, ok, with_tx, or_fail, token_decrypt_failed, token_encrypt_failed,
  token_refresh_failed, provider_token_missing,
}
use vibe_sync.Auth.Transactions.{>>=-ok, with_tx-ok, or_fail-ok}
use vibe_sync.Auth.Oauth.{Registry, OAuthProvider, get_provider}

find-put :
    (t : ProviderToken) (ts : List ProviderToken)
    → find_provider_token t.provider t.user_id (put_provider_token t ts) ≡ some t
unfolding find_provider_token put_provider_token
find-put t [] = ground (arith, eq_refl t.provider, eq_refl t.user_id)
find-put t (o ∷ os) = ground (arith, eq_refl t.provider, eq_refl t.user_id, find-put t os)

-- An expiry comes back from the table as it is, or as the table keeps a new one.
abbrev pub IsKept : ℤ → ℤ → Type 0
IsKept expiry kept = (kept ≡ expiry) ⊎ (kept ≡ micros expiry)

-- The stored row answers with this token, and with this expiry as it is kept.
abbrev Answers : (String → Option String) → String → String → String → ℤ → Db → Type 0
Answers decrypt provider user access expiry db =
    (t : ProviderToken) × (refresh : String) × (find_provider_token provider user db.provider_tokens
      ≡ some t)
    × (decrypt t.access_token_enc ≡ some access)
    × (decrypt t.refresh_token_enc ≡ some refresh)
    × IsKept expiry t.expires_at

put-find :
    (t : ProviderToken) (db after : Db) {x : Unit {0}}
    → upsert_provider_token t db ≡ (ok x, after)
    → find_provider_token t.provider t.user_id after.provider_tokens
      ≡ some (record t { expires_at = micros t.expires_at })
unfolding upsert_provider_token
put-find t db after h =
    ground (arith, h, find-put (record t { expires_at = micros t.expires_at }) db.provider_tokens)

refresh_stored-Answers :
    (provider user refresh : String) (d : TokenDraws) (db after : Db) (access : String) (expiry : ℤ)
    → ((x y : String) → d.encrypt x ≡ some y → d.decrypt y ≡ some x)
    → refresh_stored provider user refresh d db ≡ (ok (access, expiry), after)
    → Answers d.decrypt provider user access expiry after
unfolding refresh_stored
refresh_stored-Answers provider user refresh d db after access expiry cipher h =
    let ((a, r, e), db1, asked, rest1) =
      >>=-ok (or_fail token_refresh_failed (refresh_provider_token provider refresh d)) _ db h in
    let (a_enc, db2, first, rest2) =
      >>=-ok (or_fail token_encrypt_failed (d.encrypt a)) _ db1 rest1 in
    let (r_enc, db3, second, rest3) =
      >>=-ok (or_fail token_encrypt_failed (d.encrypt r)) _ db2 rest2 in
    let row : ProviderToken = record {
      provider = provider;
      user_id = user;
      access_token_enc = a_enc;
      refresh_token_enc = r_enc;
      expires_at = e;
    } in
    let kept = record row { expires_at = micros e } in
    let (_, db4, put, rest4) = >>=-ok (with_tx (upsert_provider_token row)) _ db3 rest3 in
    let stored = put-find row db3 db4 (with_tx-ok (upsert_provider_token row) db3 put) in
    (
      kept,
      r,
      ground (arith, stored, rest4),
      ground (arith, rest4, cipher a a_enc (or_fail-ok token_encrypt_failed _ db1 first).0),
      cipher r r_enc (or_fail-ok token_encrypt_failed _ db2 second).0,
      inr (ground (arith, rest4)),
    )

either-Answers :
    (b : Bool) (provider user : String) (stored : ProviderToken) (a r : String) (d : TokenDraws)
    (db after : Db) (access : String) (expiry : ℤ)
    → ((x y : String) → d.encrypt x ≡ some y → d.decrypt y ≡ some x)
    → find_provider_token provider user db.provider_tokens ≡ some stored
    → d.decrypt stored.access_token_enc ≡ some a
    → d.decrypt stored.refresh_token_enc ≡ some r
    → as_stored_or_new b provider user stored a r d db ≡ (ok (access, expiry), after)
    → Answers d.decrypt provider user access expiry after
either-Answers true provider user stored a r d db after access expiry cipher found da dr h =
    (stored, r, ground (arith, found, h), ground (arith, da, h), dr, inl (ground (arith, h)))
either-Answers false provider user stored a r d db after access expiry cipher found da dr h =
    refresh_stored-Answers provider user r d db after access expiry cipher h

get_known-Answers :
    (provider user : String) (d : TokenDraws) (db after : Db) (access : String) (expiry : ℤ)
    → ((x y : String) → d.encrypt x ≡ some y → d.decrypt y ≡ some x)
    → get_known provider user d db ≡ (ok (access, expiry), after)
    → Answers d.decrypt provider user access expiry after
unfolding get_known serve_stored
get_known-Answers provider user d db after access expiry cipher h =
    let (stored, db1, found, rest) =
      >>=-ok (or_fail provider_token_missing (find_provider_token provider user db.provider_tokens))
        _ db h in
    let (there, same1) = or_fail-ok provider_token_missing _ db found in
    let (a, db2, first, rest1) =
      >>=-ok (or_fail token_decrypt_failed (d.decrypt stored.access_token_enc)) _ db1 rest in
    let (da, same2) = or_fail-ok token_decrypt_failed _ db1 first in
    let (r, db3, second, rest2) =
      >>=-ok (or_fail token_decrypt_failed (d.decrypt stored.refresh_token_enc)) _ db2 rest1 in
    let (dr, same3) = or_fail-ok token_decrypt_failed _ db2 second in
    either-Answers (usable d.now stored.expires_at) provider user stored a r d db3 after access
      expiry cipher
      (subst (λ (x : Db). find_provider_token provider user x.provider_tokens ≡ some stored)
        (same1 ∙ same2 ∙ same3) there)
      da dr rest2

micros_below : (e : ℤ) → ltb_ℤ e (micros e) ≡ false
unfolding micros
micros_below (pos n) = ground arith
micros_below (negsuc n) = ground arith

usable-later : (now e e' : ℤ) → ltb_ℤ e' e ≡ false → usable now e ≡ true → usable now e' ≡ true
unfolding usable ◌+ℤ◌
usable-later now (pos m) (pos n) l h = ground (arith, l, h)
usable-later now (negsuc m) (pos n) l h = ground (arith, l, h)
usable-later now (pos m) (negsuc n) l h = absurd (ground (arith, l))
usable-later now (negsuc m) (negsuc n) l h = ground (arith, l, h)

known_served :
    (provider user : String) (d : TokenDraws) (db : Db) (access : String) (expiry : ℤ)
    → usable d.now (micros expiry) ≡ true
    → Answers d.decrypt provider user access expiry db
    → (kept : ℤ) × IsKept expiry kept × (get_known provider user d db ≡ (ok (access, kept), db))
unfolding get_known serve_stored
known_served provider user d db access expiry live (t, refresh, found, da, dr, same) =
    let fresh : usable d.now t.expires_at ≡ true = elim same [
      | inl e ↦ rw e (usable-later d.now (micros expiry) expiry (micros_below expiry) live)
      | inr e ↦ rw e live
    ] in
    (t.expires_at, same, rw (found, da, dr, fresh) refl)

asked :
    (r : Registry) (p : OAuthProvider) (user provider : String) (d : TokenDraws) (db : Db)
    → lookup provider r ≡ some p
    → (str_eq user "" || str_eq provider "") ≡ false
    → get_provider_token (some r) user provider d db ≡ get_known provider user d db
unfolding get_provider_token get_provider
asked r p user provider d db found named = rw (named, found) refl

-- When a request for a provider's token was answered, from the table or by a refresh, a later
-- request of the same user and provider that comes more than two minutes before the expiry as the
-- table keeps it is answered with the same token, and changes nothing; its expiry is the same, or
-- that one cut to microseconds. What is encrypted is taken to decrypt to itself, with the same key
-- at both times.
pub served_again :
    (r : Registry) (p : OAuthProvider) (user provider : String) (d d' : TokenDraws) (db after : Db)
    (access : String) (expiry : ℤ)
    → ((x y : String) → d.encrypt x ≡ some y → d.decrypt y ≡ some x)
    → d'.decrypt ≡ d.decrypt
    → lookup provider r ≡ some p
    → get_provider_token (some r) user provider d db ≡ (ok (access, expiry), after)
    → usable d'.now (micros expiry) ≡ true
    → (kept : ℤ) × IsKept expiry kept
      × (get_provider_token (some r) user provider d' after ≡ (ok (access, kept), after))
unfolding get_provider_token get_provider
served_again r p user provider d d' db after access expiry cipher same found h live =
    elim (Bool-cases (str_eq user "" || str_eq provider "")) [
      | inl blank ↦ absurd (ground (arith, blank, h))
      | inr named ↦
          let first : get_known provider user d db ≡ (ok (access, expiry), after) =
            ground (arith, named, found, h) in
          let answers = get_known-Answers provider user d db after access expiry cipher first in
          let (kept, how, again) =
            known_served provider user d' after access expiry live (rw same answers) in
          (kept, how, asked r p user provider d' after found named ∙ again)
    ]
