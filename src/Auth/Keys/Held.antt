-- ===== src/Auth/Keys/Held.antt =====
-- The row of an older key over a rotation, and in the signer of a process that is started after it.
use vibe_sync.Auth.Keys.{Crypto, load_retired, new_jwt_signer, JwtSigner}
use vibe_sync.Auth.Keys.Rotation.{has_kid}
use vibe_sync.Auth.KeyTable.{
  SigningKey, list_verifiable, mark_retired, put_key, upsert_key, rotate_found, ok,
}
use vibe_sync.Base.{
  ◌≡◌, refl, ◌∙◌, Bool, true, false, not, ◌&&◌, Bool-cases, Option-cases, inl, inr, Option, none,
  some, String, str_eq, eq_iff, eq_refl, List, [], ◌∷◌, ℤ, ltb_ℤ, arith, lookup, ◌-ℤ◌,
}
use vibe_sync.Auth.Keys.Loading.{all_hold, load-keeps, load-finds}

module _ (c : Crypto) where
  module _ (kid key : String) where
    mark_retired-hold :
        (j : String) (at : ℤ) (ks : List SigningKey)
        → all_hold c kid key ks ≡ true
        → (all_hold c kid key (mark_retired j at ks) ≡ true)
          × (has_kid kid (mark_retired j at ks) ≡ has_kid kid ks)
    unfolding all_hold mark_retired has_kid
    mark_retired-hold j at [] h = (refl, refl)
    mark_retired-hold j at (k ∷ ks) h =
        (ground (arith, h, mark_retired-hold j at ks), ground (arith, h, mark_retired-hold j at ks))

    put_key-hold :
        (fresh : SigningKey) (ks : List SigningKey)
        → str_eq fresh.kid kid ≡ false
        → all_hold c kid key ks ≡ true
        → all_hold c kid key (put_key fresh ks) ≡ true
    unfolding all_hold put_key
    put_key-hold fresh [] n h = ground (arith, n)
    put_key-hold fresh (k ∷ ks) n h = ground (arith, n, h, put_key-hold fresh ks n)

    has_kid-put_key :
        (fresh : SigningKey) (ks : List SigningKey)
        → str_eq fresh.kid kid ≡ false
        → has_kid kid (put_key fresh ks) ≡ has_kid kid ks
    unfolding has_kid put_key
    has_kid-put_key fresh [] n = ground (arith, n)
    has_kid-put_key fresh (k ∷ ks) n =
        ground (arith, n, has_kid-put_key fresh ks n, eq_iff k.kid fresh.kid)

  -- The row of an older key is there after a rotation, with its public key.
  abbrev pub Held : String → String → List SigningKey → Type 0
  Held kid key ks = (all_hold c kid key ks ≡ true) × (has_kid kid ks ≡ true)

  upsert_key-put :
      (fresh : SigningKey) (ks after : List SigningKey)
      → upsert_key fresh ks ≡ ok after
      → after ≡ put_key fresh ks
  unfolding upsert_key
  upsert_key-put fresh ks after h = ground (arith, h)

  put_key-Held :
      (kid key : String) (fresh : SigningKey) (ks after : List SigningKey)
      → str_eq fresh.kid kid ≡ false
      → Held kid key ks
      → upsert_key fresh ks ≡ ok after
      → Held kid key after
  put_key-Held kid key fresh ks after n (held, there) h =
      rw (upsert_key-put fresh ks after h)
        (put_key-hold kid key fresh ks n held, has_kid-put_key kid key fresh ks n ∙ there)

  pub rotate_found-Held :
      (kid key : String) (force : Bool) (now interval : ℤ) (fresh : SigningKey)
      (o : Option SigningKey) (ks after : List SigningKey)
      → str_eq fresh.kid kid ≡ false
      → Held kid key ks
      → rotate_found force now interval fresh o ks ≡ ok after
      → Held kid key after
  unfolding rotate_found
  rotate_found-Held kid key force now interval fresh none ks after n held h =
      put_key-Held kid key fresh ks after n held h
  rotate_found-Held kid key force now interval fresh (some prev) ks after n held h =
      elim (Bool-cases (not force && ltb_ℤ (now -ℤ prev.created_at) interval)) [
        | inl soon ↦ absurd (ground (arith, soon, h))
        | inr due ↦
            let (kept, same) = mark_retired-hold kid key prev.kid now ks held.0 in
            put_key-Held kid key fresh (mark_retired prev.kid now ks) after n (kept, same ∙ held.1)
              (ground (arith, due, h))
      ]

  starts : (kid key : String) → lookup kid ((kid, key) ∷ []) ≡ some key
  unfolding lookup
  starts kid key = ground (arith, eq_refl kid)

  pub new_jwt_signer-lookup :
      (kid key new priv : String) (stored : List SigningKey) (s : JwtSigner)
      → str_eq kid new ≡ false
      → Held kid key (list_verifiable stored)
      → new_jwt_signer c new priv (list_verifiable stored) ≡ some s
      → (lookup kid s.verifiers ≡ some key)
        × (lookup new s.verifiers ≡ some (c.public_of priv))
        × (s.active_kid ≡ new)
        × (s.private ≡ priv)
  unfolding new_jwt_signer
  new_jwt_signer-lookup kid key new priv stored s n held h =
      elim (Option-cases
        (load_retired c new (list_verifiable stored) (some ((new, c.public_of priv) ∷ [])))) [
          | inl e ↦ absurd (ground (arith, e, h))
          | inr (vs, e) ↦ (
            ground (
              arith,
              e,
              h,
              load-finds c kid key new (list_verifiable stored) ((new, c.public_of priv) ∷ []) vs n
                  held.0 held.1 e,
            ),
            ground (
              arith,
              e,
              h,
              load-keeps c new (c.public_of priv) new (list_verifiable stored)
                  ((new, c.public_of priv) ∷ []) vs (ground (arith, eq_refl new))
                  (starts new (c.public_of priv)) e,
            ),
            ground (arith, e, h),
            ground (arith, e, h),
          )
        ]
