-- ===== src/Examples/Signing.antt =====
-- Examples on the keys that sign access tokens.
use vibe_sync.Base.{
  ℕ, ◌==◌, negsuc, str_eq, eq_iff, ◌&&◌, if◌then◌else◌, none, Bool-cases, inl, inr, ap, sym,
}
use vibe_sync.Base.{
  ◌≡◌, refl, Bool, true, false, Option, some, String, ℤ, pos, List, [], ◌∷◌, ◌++◌, arith,
}
use vibe_sync.Auth.Keys.{
  Claims, Crypto, JwtSigner, KeyState, rotate_signing_key, sign, verify, Verified, valid,
}
use vibe_sync.Auth.KeyTable.{
  SigningKeyStatus, SigningKey, KeyResult, ok, get_active, mark_retired, count_active, rotate_table,
}
use vibe_sync.Auth.Keys.Rotation.{has_kid, rotation_succeeds}
use vibe_sync.Auth.Keys.Survival.{IsCrypto, tokens_survive}

abbrev old_key : SigningKey
old_key = record {
  kid = "k1";
  status = SigningKeyStatus.active;
  private_encrypted = "p1";
  public_jwk = "p1";
  created_at = pos 10;
  retired_at = pos 0;
}

abbrev new_key : SigningKey
new_key = record old_key {
  kid = "k2";
  private_encrypted = "p2";
  public_jwk = "p2";
  created_at = pos 90;
}

abbrev keys : List SigningKey
keys = old_key ∷ []

rotation_succeeds_example :
    (rotate_table false (pos 90) (pos 50) new_key keys
      ≡ ok (mark_retired "k1" (pos 90) keys ++ new_key ∷ []))
    × (get_active (mark_retired "k1" (pos 90) keys ++ new_key ∷ []) ≡ some new_key)
    × (count_active (mark_retired "k1" (pos 90) keys ++ new_key ∷ []) ≡ 1)
unfolding has_kid count_active get_active vibe_sync.Base.◌-ℤ◌
rotation_succeeds_example =
    rotation_succeeds false (pos 90) (pos 50) new_key keys refl refl (omega arith) old_key refl refl

abbrev claims : Claims
claims = record {
  subject = "u1";
  role = pos 2;
  scope = "";
  issued_at = pos 5;
  expires_at = pos 500;
}

abbrev is_pos : ℤ → ℕ → Bool
is_pos (pos n) m = n == m
is_pos (negsuc n) m = false

abbrev same_claims : Claims → Bool
same_claims c =
    str_eq c.subject "u1"
    && (is_pos c.role 2 && (str_eq c.scope "" && (is_pos c.issued_at 5 && is_pos c.expires_at 500)))

-- A key is its own public key, and only these claims can be signed: their token is the key's id.
abbrev crypto : Crypto
crypto = record {
  public_of = λ p. p;
  pkcs8 = λ p. some p;
  from_pkcs8 = λ p. some p;
  encrypt = λ p. some p;
  decrypt = λ p. some p;
  to_jwk = λ p. some p;
  from_jwk = λ p. some p;
  sign = λ p kid c. if same_claims c then some kid else none;
  parse = λ t. some (t, t);
  verify = λ p s. some claims;
}

is_pos-eq : (z : ℤ) (m : ℕ) → is_pos z m ≡ true → z ≡ pos m
is_pos-eq (pos n) m h = ground (arith, h)
is_pos-eq (negsuc n) m h = cc h

claims_eq : (c : Claims) → same_claims c ≡ true → c ≡ claims
claims_eq c h = ground (
  arith,
  h,
  eq_iff c.subject "u1",
  eq_iff c.scope "",
  is_pos-eq c.role 2,
  is_pos-eq c.issued_at 5,
  is_pos-eq c.expires_at 500,
)

signed_verifies :
    (priv kid token : String) (c : Claims)
    → crypto.sign priv kid c ≡ some token
    → (signed : String) × (crypto.parse token ≡ some (kid, signed))
      × (crypto.verify (crypto.public_of priv) signed ≡ some c)
signed_verifies priv kid token c h = elim (Bool-cases (same_claims c)) [
  | inr other ↦ absurd (ground (arith, other, h))
  | inl same ↦ (token, ground (arith, same, h), ap some (sym (claims_eq c same)))
]

crypto_laws : IsCrypto crypto
crypto_laws = record { signed_verifies = signed_verifies }

abbrev at_first : KeyState
at_first = record {
  keys = keys;
  signer = record { active_kid = "k1"; private = "p1"; verifiers = ("k1", "p1") ∷ [] };
}

abbrev after : KeyState
after = (rotate_signing_key crypto (pos 50) false (pos 90) (some "k2") (some "p2") at_first).1

-- The process is started over this table.
abbrev again : KeyState
again = record {
  keys = after.keys;
  signer = record {
    active_kid = "k2";
    private = "p2";
    verifiers = ("k2", "p2") ∷ ("k1", "p1") ∷ [];
  };
}

tokens_survive_example :
    (after.signer ≡ at_first.signer)
    × (again.signer.active_kid ≡ "k2")
    × (verify crypto again.signer (pos 100) "k1" ≡ valid claims)
    × (verify crypto again.signer (pos 100) "k2" ≡ valid claims)
unfolding rotate_signing_key rotate_table sign has_kid vibe_sync.Auth.Keys.Loading.all_hold
    vibe_sync.Auth.Keys.generate_signing_key vibe_sync.Auth.KeyTable.list_verifiable
    vibe_sync.Auth.Keys.new_jwt_signer vibe_sync.Auth.Keys.bootstrap_signer get_active count_active
    vibe_sync.Base.◌-ℤ◌ vibe_sync.Base.insert
tokens_survive_example =
    tokens_survive crypto (pos 50) false (pos 90) "k2" "p2" "k2" at_first after old_key crypto_laws
      refl (omega arith) refl refl refl refl refl refl (pos 99) "k3" "p3" again refl claims
      (pos 100) "k1" "k2" refl refl refl
