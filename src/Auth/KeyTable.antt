-- ===== src/Auth/KeyTable.antt =====
-- apps/auth-service/internal/infra/postgres/signingkey_repo.go: the table of the signing keys, and the
-- transaction of a rotation from internal/app/keys.go.
use vibe_sync.Base.{
  ℕ, ◌+◌, ltb, Bool, true, false, not, ◌&&◌, Option, none, some, String, str_eq, List, [], ◌∷◌, ℤ,
  ◌-ℤ◌, ltb_ℤ, if◌then◌else◌,
}

pub data SigningKeyStatus : Type 0 where
  unspecified active retired : SigningKeyStatus

pub record SigningKey : Type 0 where
  pub kid : String
  pub status : SigningKeyStatus
  pub private_encrypted : String
  pub public_jwk : String
  pub created_at : ℤ
  pub retired_at : ℤ

pub data KeyError : Type 0 where
  kid_gen_failed key_gen_failed rotation_too_soon key_storage_failure : KeyError

abbrev pub is_active : SigningKeyStatus → Bool
is_active active = true
is_active _ = false

unfoldable pub get_active : List SigningKey → Option SigningKey
get_active [] = none
get_active (k ∷ ks) = if is_active k.status then some k else get_active ks

abbrev pub retire : ℤ → SigningKey → SigningKey
retire at k = record k { status = retired; retired_at = at }

unfoldable pub mark_retired : String → ℤ → List SigningKey → List SigningKey
mark_retired kid at [] = []
mark_retired kid at (k ∷ ks) =
    (if str_eq k.kid kid then retire at k else k) ∷ mark_retired kid at ks

unfoldable pub put_key : SigningKey → List SigningKey → List SigningKey
put_key k [] = k ∷ []
put_key k (old ∷ rest) =
    let after = put_key k rest in
    if str_eq old.kid k.kid then record k { created_at = old.created_at } ∷ rest else old ∷ after

unfoldable pub count_active : List SigningKey → ℕ
count_active [] = 0
count_active (k ∷ ks) = (if is_active k.status then 1 else 0) + count_active ks

pub data KeyResult {ℓ} (A : Type ℓ) : Type ℓ where
  ok : A → KeyResult A
  err : KeyError → KeyResult A

-- The index signing_keys_one_active_idx refuses a second active row.
unfoldable pub upsert_key : SigningKey → List SigningKey → KeyResult (List SigningKey)
unfolding put_key count_active
upsert_key k keys =
    if ltb 1 (count_active (put_key k keys)) then err key_storage_failure else ok (put_key k keys)

-- The transaction of a rotation; its result replaces the table only if it is `ok`.
unfoldable pub rotate_found :
    Bool → ℤ → ℤ → SigningKey → Option SigningKey → List SigningKey → KeyResult (List SigningKey)
unfolding mark_retired
rotate_found force now interval fresh none keys = upsert_key fresh keys
rotate_found force now interval fresh (some prev) keys =
    if not force && ltb_ℤ (now -ℤ prev.created_at) interval
    then err rotation_too_soon
    else upsert_key fresh (mark_retired prev.kid now keys)

unfoldable pub rotate_table :
    Bool → ℤ → ℤ → SigningKey → List SigningKey → KeyResult (List SigningKey)
unfolding rotate_found get_active upsert_key
rotate_table force now interval fresh keys =
    rotate_found force now interval fresh (get_active keys) keys

abbrev pub is_verifiable : SigningKeyStatus → Bool
is_verifiable SigningKeyStatus.unspecified = false
is_verifiable _ = true

-- ORDER BY created_at DESC.
unfoldable pub place : SigningKey → List SigningKey → List SigningKey
place k [] = k ∷ []
place k (o ∷ os) =
    let rest = place k os in if ltb_ℤ k.created_at o.created_at then o ∷ rest else k ∷ o ∷ os

unfoldable pub list_verifiable : List SigningKey → List SigningKey
unfolding place
list_verifiable [] = []
list_verifiable (k ∷ ks) =
    let rest = list_verifiable ks in if is_verifiable k.status then place k rest else rest
