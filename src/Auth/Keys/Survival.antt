-- ===== src/Auth/Keys/Survival.antt =====
-- Access tokens over a rotation of the keys.
use vibe_sync.Auth.Keys.Held.{rotate_found-Held, new_jwt_signer-lookup}
use vibe_sync.Auth.Keys.{
  parsed, signer_from, bootstrap_signer, Crypto, Claims, new_jwt_signer, JwtSigner, encrypted,
  KeyState, committed, generated, generate_signing_key, rotate_signing_key, sign, verify, valid,
}
use vibe_sync.Auth.Keys.Rotation.{rotation_succeeds, has_kid}
use vibe_sync.Auth.KeyTable.{
  count_active, active, SigningKey, list_verifiable, mark_retired, KeyResult, rotate_table,
  get_active, ok, err,
}
use vibe_sync.Base.{
  ◌≤◌, ap, subst, ◌++◌, ◌≡◌, refl, ◌∙◌, Bool, true, false, not, ◌&&◌, Option-cases, inl, inr,
  Option, none, some, String, str_eq, eq_iff, List, [], ◌∷◌, ℤ, ltb_ℤ, arith, lookup, ◌-ℤ◌,
}
use vibe_sync.Auth.Keys.Loading.{all_hold, list_verifiable-hold, has_kid-list_verifiable}

-- A token that was signed parses to the id of its key, and verifies with the public key to the
-- claims that were signed.
pub record IsCrypto (c : Crypto) : Type 0 where
  pub signed_verifies :
      (priv kid token : String) (claims : Claims)
      → c.sign priv kid claims ≡ some token
      → (signed : String) × (c.parse token ≡ some (kid, signed))
        × (c.verify (c.public_of priv) signed ≡ some claims)

module _ (c : Crypto) where
  fresh-kid :
      (now : ℤ) (kid priv : String) (fresh : SigningKey)
      → generate_signing_key c now kid priv ≡ some fresh
      → fresh.kid ≡ kid
  unfolding generate_signing_key
  fresh-kid now kid priv fresh h = elim (Option-cases (encrypted c (c.pkcs8 priv))) [
    | inl e ↦ absurd (ground (arith, e, h))
    | inr (enc, e) ↦ elim (Option-cases (c.to_jwk (c.public_of priv))) [
      | inl f ↦ absurd (ground (arith, e, f, h))
      | inr (jwk, f) ↦ ground (arith, e, f, h)
    ]
  ]

  committed-ok :
      (kid : String) (r : KeyResult (List SigningKey)) (st after : KeyState) {out : String}
      → committed kid r st ≡ (ok out, after)
      → (r ≡ ok after.keys) × (after.signer ≡ st.signer)
  committed-ok kid (err e) st after h = absurd (ground (arith, h))
  committed-ok kid (ok keys) st after h = (ground (arith, h), ground (arith, h))

  generated-ok :
      (force : Bool) (now interval : ℤ) (kid priv : String) (o : Option SigningKey)
      (st after : KeyState) {out : String}
      → generated c force now interval kid priv o st ≡ (ok out, after)
      → (fresh : SigningKey) × (o ≡ some fresh)
        × (committed kid (rotate_table force now interval fresh st.keys) st ≡ (ok out, after))
  generated-ok force now interval kid priv none st after h = absurd (ground (arith, h))
  generated-ok force now interval kid priv (some fresh) st after h = (fresh, refl, h)

  verified :
      (s : JwtSigner) (priv kid token : String) (claims : Claims) (at : ℤ)
      → IsCrypto c
      → lookup kid s.verifiers ≡ some (c.public_of priv)
      → c.sign priv kid claims ≡ some token
      → ltb_ℤ at claims.expires_at ≡ true
      → verify c s at token ≡ valid claims
  unfolding verify
  verified s priv kid token claims at laws found signed live =
      let (body, parsed, checked) = laws.signed_verifies priv kid token claims signed in
      rw (parsed, found, checked, live) refl

  signer_from-ok :
      (keys : List SigningKey) (kid : String) (o : Option String) (st : KeyState)
      → signer_from c keys kid o ≡ some st
      → (priv : String) × (new_jwt_signer c kid priv (list_verifiable keys) ≡ some st.signer)
  unfolding signer_from
  signer_from-ok keys kid none st h = absurd (ground (arith, h))
  signer_from-ok keys kid (some priv) st h =
      elim (Option-cases (new_jwt_signer c kid priv (list_verifiable keys))) [
        | inl e ↦ absurd (ground (arith, e, h))
        | inr (s, e) ↦ (priv, ground (arith, e, h))
      ]

  bootstrap_signer-active :
      (now : ℤ) (kid priv : String) (k : SigningKey) (keys : List SigningKey) (st : KeyState)
      → get_active keys ≡ some k
      → bootstrap_signer c now kid priv keys ≡ some st
      → (own : String) × (new_jwt_signer c k.kid own (list_verifiable keys) ≡ some st.signer)
  unfolding bootstrap_signer
  bootstrap_signer-active now kid priv k keys st found h =
      signer_from-ok keys k.kid (parsed c (c.decrypt k.private_encrypted)) st (rw found at h)

  made-active :
      (now : ℤ) (kid priv : String) (fresh : SigningKey)
      → generate_signing_key c now kid priv ≡ some fresh
      → fresh.status ≡ active
  unfolding generate_signing_key
  made-active now kid priv fresh h = elim (Option-cases (encrypted c (c.pkcs8 priv))) [
    | inl e ↦ absurd (ground (arith, e, h))
    | inr (enc, e) ↦ elim (Option-cases (c.to_jwk (c.public_of priv))) [
      | inl f ↦ absurd (ground (arith, e, f, h))
      | inr (jwk, f) ↦ ground (arith, e, f, h)
    ]
  ]

  -- The table after a rotation that succeeded.
  rotated_table :
      (force : Bool) (now interval : ℤ) (new priv out : String) (st after : KeyState)
      (prev : SigningKey)
      → has_kid new st.keys ≡ false
      → count_active st.keys ≤ 1
      → get_active st.keys ≡ some prev
      → (not force && ltb_ℤ (now -ℤ prev.created_at) interval) ≡ false
      → rotate_signing_key c interval force now (some new) (some priv) st ≡ (ok out, after)
      → (fresh : SigningKey) × (fresh.kid ≡ new)
        × (get_active after.keys ≡ some fresh)
        × (rotate_table force now interval fresh st.keys ≡ ok after.keys)
        × (after.signer ≡ st.signer)
  unfolding rotate_signing_key
  rotated_table force now interval new priv out st after prev unused single found due h =
      let (fresh, made, rest) =
        generated-ok force now interval new priv (generate_signing_key c now new priv) st after h in
      let named = fresh-kid now new priv fresh made in
      let (rotated, same) =
        committed-ok new (rotate_table force now interval fresh st.keys) st after rest in
      let (table, newest, count) =
        rotation_succeeds force now interval fresh st.keys (made-active now new priv fresh made)
          (ap (λ k. has_kid k st.keys) named ∙ unused) single prev found due in
      let kept = mark_retired prev.kid now st.keys ++ fresh ∷ [] in
      let equal : kept ≡ after.keys = ground (arith, table, rotated) in
      (fresh, named, subst (λ ks. get_active ks ≡ some fresh) equal newest, rotated, same)

  -- A rotation that succeeds, from a table with one active key and to an id that the table does not
  -- have, leaves the signer of the process as it is, which goes on to sign with the retired key. A
  -- process that is started over its table signs with the new key id; and if the row of the old
  -- signer's key holds its public key in a form that parses, then a token that the old signer
  -- signed verifies after that start to its claims until it expires, and so does a token that the
  -- new signer signs.
  pub tokens_survive :
      (interval : ℤ) (force : Bool) (now : ℤ) (new priv out : String) (st after : KeyState)
      (prev : SigningKey)
      → IsCrypto c
      → has_kid new st.keys ≡ false
      → count_active st.keys ≤ 1
      → get_active st.keys ≡ some prev
      → (not force && ltb_ℤ (now -ℤ prev.created_at) interval) ≡ false
      → str_eq st.signer.active_kid new ≡ false
      → all_hold c st.signer.active_kid (c.public_of st.signer.private) st.keys ≡ true
      → has_kid st.signer.active_kid st.keys ≡ true
      → rotate_signing_key c interval force now (some new) (some priv) st ≡ (ok out, after)
      → (later : ℤ) (unused_kid unused_key : String) (again : KeyState)
      → bootstrap_signer c later unused_kid unused_key after.keys ≡ some again
      → (claims : Claims) (at : ℤ) (old_token new_token : String)
      → ltb_ℤ at claims.expires_at ≡ true
      → sign c st.signer claims ≡ some old_token
      → sign c again.signer claims ≡ some new_token
      → (after.signer ≡ st.signer)
        × (again.signer.active_kid ≡ new)
        × (verify c again.signer at old_token ≡ valid claims)
        × (verify c again.signer at new_token ≡ valid claims)
  unfolding rotate_table sign
  tokens_survive interval force now new priv out st after prev laws unused single found due differ
        held there h later unused_kid unused_key again begun claims at old_token new_token live
        old_signed new_signed =
      let old = st.signer.active_kid in
      let key = c.public_of st.signer.private in
      let (fresh, named, newest, rotated, same) =
        rotated_table force now interval new priv out st after prev unused single found due h in
      let (own, made) =
        bootstrap_signer-active later unused_kid unused_key fresh after.keys again newest begun in
      let apart : str_eq old fresh.kid ≡ false = ap (str_eq old) named ∙ differ in
      let other : str_eq fresh.kid old ≡ false =
        ground (arith, apart, eq_iff fresh.kid old, eq_iff old fresh.kid) in
      let (kept, still) =
        rotate_found-Held c old key force now interval fresh (get_active st.keys) st.keys after.keys
          other (held, there) rotated in
      let (old_key, new_key, active_new, private_new) =
        new_jwt_signer-lookup c old key fresh.kid own after.keys again.signer apart
          (
            list_verifiable-hold c old key after.keys kept,
            has_kid-list_verifiable c old key after.keys kept still,
          )
          made in
      (
        same,
        active_new ∙ named,
        verified again.signer st.signer.private old old_token claims at laws old_key old_signed
            live,
        verified again.signer own fresh.kid new_token claims at laws new_key
            (ground (arith, active_new, private_new, new_signed)) live,
      )
