-- ===== src/Auth/Keys.antt =====
-- The signer of access tokens: apps/auth-service/internal/app/keys.go and introspect.go,
-- internal/domain/signing_key.go and internal/infra/crypto/jwt.go; and the start of the process in
-- cmd/auth-service/main.go. RSA, PKCS 8, JWK, JWS and the cipher are arguments.
pub mod Rotation
pub mod Loading
pub mod Held
pub mod Survival
use vibe_sync.Base.{
  ℕ, ◌+◌, ltb, Bool, true, false, not, ◌&&◌, ◌||◌, Option, none, some, String, str_eq, List, [],
  ◌∷◌, ◌++◌, ℤ, pos, ◌-ℤ◌, ◌+ℤ◌, ltb_ℤ, if◌then◌else◌, lookup, insert,
}
use vibe_sync.Auth.Store.{User}
use vibe_sync.Auth.KeyTable.{
  SigningKeyStatus, SigningKey, KeyError, is_active, get_active, retire, mark_retired, put_key,
  count_active, KeyResult, upsert_key, rotate_found, rotate_table, is_verifiable, place,
  list_verifiable, unspecified, active, retired, kid_gen_failed, key_gen_failed, rotation_too_soon,
  key_storage_failure, ok, err,
}

-- The payload of an access token. Its issuer, audience and random id, which Verify hands on and
-- nothing reads, are left out.
pub record Claims : Type 0 where
  pub subject : String
  pub role : ℤ
  pub scope : String
  pub issued_at : ℤ
  pub expires_at : ℤ

-- Third-party code; `none` is an error. A parsed token is the key id of its header and the rest.
pub record Crypto : Type 0 where
  pub public_of : String → String
  pub pkcs8 : String → Option String
  pub from_pkcs8 : String → Option String
  pub encrypt : String → Option String
  pub decrypt : String → Option String
  pub to_jwk : String → Option String
  pub from_jwk : String → Option String
  pub sign : String → String → Claims → Option String
  pub parse : String → Option (String × String)
  pub verify : String → String → Option Claims

pub data TokenError : Type 0 where
  token_malformed unknown_kid bad_signature token_expired : TokenError

pub record JwtSigner : Type 0 where
  pub active_kid : String
  pub private : String
  pub verifiers : List (String × String)

abbrev made_key : ℤ → String → String → Option String → Option String → Option SigningKey
made_key now kid priv (some enc) (some jwk) = some (record {
  kid = kid;
  status = SigningKeyStatus.active;
  private_encrypted = enc;
  public_jwk = jwk;
  created_at = now;
  retired_at = pos 0;
})
made_key now kid priv _ _ = none

abbrev encrypted : Crypto → Option String → Option String
encrypted c none = none
encrypted c (some der) = c.encrypt der

-- From a drawn private key.
unfoldable pub generate_signing_key : Crypto → ℤ → String → String → Option SigningKey
generate_signing_key c now kid priv =
    made_key now kid priv (encrypted c (c.pkcs8 priv)) (c.to_jwk (c.public_of priv))

abbrev pub add_verifier :
    String → Option String → Option (List (String × String)) → Option (List (String × String))
add_verifier kid (some pub_key) (some made) = some (insert kid pub_key made)
add_verifier kid _ _ = none

-- The rows but the one of the new key, parsed from their stored form.
unfoldable pub load_retired :
    Crypto
    → String
    → List SigningKey
    → Option (List (String × String))
    → Option (List (String × String))
load_retired c skip [] made = made
load_retired c skip (k ∷ ks) made =
    load_retired c skip ks
      (if str_eq k.kid skip then made else add_verifier k.kid (c.from_jwk k.public_jwk) made)

abbrev pub signer_with : String → String → Option (List (String × String)) → Option JwtSigner
signer_with kid priv none = none
signer_with kid priv (some vs) = some (record { active_kid = kid; private = priv; verifiers = vs })

-- `NewJWTSigner`; `Reload` builds the same from the same.
unfoldable pub new_jwt_signer : Crypto → String → String → List SigningKey → Option JwtSigner
unfolding load_retired
new_jwt_signer c kid priv stored =
    signer_with kid priv (load_retired c kid stored (some ((kid, c.public_of priv) ∷ [])))

unfoldable pub sign : Crypto → JwtSigner → Claims → Option String
sign c s claims = c.sign s.private s.active_kid claims

-- `issueAccessToken`, with Unix times.
unfoldable pub issue_access_token : Crypto → JwtSigner → ℤ → ℤ → User → Option String
unfolding sign
issue_access_token c s ttl now u = sign c s (record {
  subject = u.id;
  role = u.system_role;
  scope = "";
  issued_at = now;
  expires_at = now +ℤ ttl;
})

pub data Verified : Type 0 where
  valid : Claims → Verified
  invalid : TokenError → Verified

abbrev pub unexpired : ℤ → Option Claims → Verified
unexpired now none = invalid bad_signature
unexpired now (some claims) =
    if not (ltb_ℤ now claims.expires_at) then invalid token_expired else valid claims

abbrev pub verify_with : Crypto → ℤ → Option String → String → Verified
verify_with c now none signed = invalid unknown_kid
verify_with c now (some key) signed = unexpired now (c.verify key signed)

abbrev pub verify_parsed : Crypto → JwtSigner → ℤ → Option (String × String) → Verified
verify_parsed c s now none = invalid token_malformed
verify_parsed c s now (some (kid, signed)) = verify_with c now (lookup kid s.verifiers) signed

-- A payload that is no JSON of claims counts as a bad signature.
unfoldable pub verify : Crypto → JwtSigner → ℤ → String → Verified
verify c s now token = verify_parsed c s now (c.parse token)

pub record KeyState : Type 0 where
  pub keys : List SigningKey
  pub signer : JwtSigner

-- The signer stays as it is: the method Reload of `signerReloader` takes an *rsa.PrivateKey and that
-- of JWTSigner takes any value, so JWTSigner is no `signerReloader` and the assertion fails.
abbrev pub committed : String → KeyResult (List SigningKey) → KeyState → KeyResult String × KeyState
committed kid (err e) st = (err e, st)
committed kid (ok keys) st = (ok kid, record st { keys = keys })

abbrev pub generated :
    Crypto
    → Bool
    → ℤ
    → ℤ
    → String
    → String
    → Option SigningKey
    → KeyState
    → KeyResult String × KeyState
generated c force now interval kid priv none st = (err key_gen_failed, st)
generated c force now interval kid priv (some fresh) st =
    committed kid (rotate_table force now interval fresh st.keys) st

-- With the drawn key id and private key.
unfoldable pub rotate_signing_key :
    Crypto → ℤ → Bool → ℤ → Option String → Option String → KeyState → KeyResult String × KeyState
rotate_signing_key c interval force now (some kid) (some priv) st =
    generated c force now interval kid priv (generate_signing_key c now kid priv) st
rotate_signing_key c interval force now (some kid) none st = (err key_gen_failed, st)
rotate_signing_key c interval force now none priv st = (err kid_gen_failed, st)

abbrev pub parsed : Crypto → Option String → Option String
parsed c none = none
parsed c (some der) = c.from_pkcs8 der

abbrev with_table : List SigningKey → Option JwtSigner → Option KeyState
with_table keys none = none
with_table keys (some s) = some (record { keys = keys; signer = s })

-- The second half of `bootstrapSigner`, from a private key that could be read.
unfoldable pub signer_from : Crypto → List SigningKey → String → Option String → Option KeyState
signer_from c keys kid none = none
signer_from c keys kid (some priv) =
    with_table keys (new_jwt_signer c kid priv (list_verifiable keys))

abbrev created_signer : Crypto → String → Option SigningKey → List SigningKey → Option KeyState
created_signer c priv none keys = none
created_signer c priv (some fresh) keys = elim (upsert_key fresh keys) [
  | err e ↦ none
  | ok after ↦ signer_from c after fresh.kid (some priv)
]

abbrev pub started_signer :
    Crypto → ℤ → String → String → Option SigningKey → List SigningKey → Option KeyState
started_signer c now kid priv (some k) keys =
    signer_from c keys k.kid (parsed c (c.decrypt k.private_encrypted))
started_signer c now kid priv none keys =
    created_signer c priv (generate_signing_key c now kid priv) keys

-- `bootstrapSigner` at the start of the process, with the key that it draws if there is none.
unfoldable pub bootstrap_signer : Crypto → ℤ → String → String → List SigningKey → Option KeyState
unfolding signer_from generate_signing_key
bootstrap_signer c now kid priv keys = started_signer c now kid priv (get_active keys) keys

pub data Introspection : Type 0 where
  inactive : Introspection
  is_live : Claims → Introspection
  failed : TokenError → Introspection

-- `isAuthErr` asks for a method `Code() uint32`; that of the errors of Verify returns connect.Code,
-- which is another type.
abbrev pub is_auth_err : TokenError → Bool
is_auth_err e = false

abbrev pub introspected : Verified → Introspection
introspected (valid claims) = is_live claims
introspected (invalid e) = if is_auth_err e then inactive else failed e

unfoldable pub introspect : Crypto → JwtSigner → ℤ → String → Introspection
introspect c s now token = if str_eq token "" then inactive else introspected (verify c s now token)
