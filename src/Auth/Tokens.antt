-- ===== src/Auth/Tokens.antt =====
-- apps/auth-service/internal/domain: status.go and refresh_token.go, with the wire form of a
-- token from internal/app/refresh.go. Selectors and validators are lists of bytes.
pub mod Wire
pub mod Use
use vibe_sync.Base.{
  ℕ, zero, suc, Bool, true, false, not, ◌&&◌, Option, none, some, String, List, [], ◌∷◌, ◌++◌, ℤ,
  pos, ltb_ℤ, ◌+ℤ◌, ◌==◌, if◌then◌else◌,
}

abbrev pub Text : Type 0
Text = List ℕ

unfoldable pub text_eq : Text → Text → Bool
text_eq [] [] = true
text_eq (x ∷ xs) (y ∷ ys) = let rest = text_eq xs ys in x == y && rest
text_eq _ _ = false

pub data UserStatus : Type 0 where
  unspecified active suspended deleted : UserStatus

abbrev pub can_login : UserStatus → Bool
can_login UserStatus.active = true
can_login _ = false

pub data RefreshTokenStatus : Type 0 where
  unspecified active used revoked compromised expired : RefreshTokenStatus

pub record RefreshToken : Type 0 where
  pub id : String
  pub family_id : String
  pub user_id : String
  pub session_id : String
  pub selector : Text
  pub validator_hash : String
  pub rotated_from : String
  pub status : RefreshTokenStatus
  pub expires_at : ℤ
  pub created_at : ℤ
  pub used_at : ℤ
  pub revoked_at : ℤ

pub record ValidatorMaterial : Type 0 where
  pub selector : Text
  pub validator : Text

unfoldable pub presentation_token : ValidatorMaterial → Text
presentation_token v = v.selector ++ (b'.' ∷ v.validator)

-- The ports PasswordHasher.Hash and Compare; `none` is an error.
pub record Hasher : Type 0 where
  pub hash : Text → Option String
  pub compare : String → Text → Bool

-- `selector` and `validator` are the two random draws; the zero time stands in unset fields.
token_from :
    ℤ
    → String
    → String
    → String
    → String
    → String
    → ℤ
    → Text
    → Text
    → Option String
    → Option (RefreshToken × ValidatorMaterial)
token_from now id family user session rotated ttl selector validator none = none
token_from now id family user session rotated ttl selector validator (some h) = some (
  record {
    id = id;
    family_id = family;
    user_id = user;
    session_id = session;
    selector = selector;
    validator_hash = h;
    rotated_from = rotated;
    status = active;
    expires_at = now +ℤ ttl;
    created_at = now;
    used_at = pos 0;
    revoked_at = pos 0;
  },
  record { selector = selector; validator = validator },
)

unfoldable pub new_refresh_token :
    Hasher
    → ℤ
    → String
    → String
    → String
    → String
    → String
    → ℤ
    → Option Text
    → Option Text
    → Option (RefreshToken × ValidatorMaterial)
unfolding token_from
new_refresh_token hs now id family user session rotated ttl (some selector) (some validator) =
    token_from now id family user session rotated ttl selector validator (hs.hash validator)
new_refresh_token hs now id family user session rotated ttl _ _ = none

unfoldable pub verify_validator : Hasher → RefreshToken → Text → Bool
verify_validator hs t presented = hs.compare t.validator_hash presented

pub data UseOutcome : Type 0 where
  rotate reuse family_compromised token_revoked token_expired : UseOutcome

classify_status : RefreshTokenStatus → Bool → UseOutcome
classify_status compromised fresh = family_compromised
classify_status revoked fresh = token_revoked
classify_status used true = reuse
classify_status active true = rotate
classify_status unspecified true = token_revoked
classify_status expired true = token_revoked
classify_status _ false = token_expired

-- The outcome of `ClassifyUse`; the error beside it in the source has the same name.
unfoldable pub classify_use : RefreshToken → ℤ → UseOutcome
unfolding classify_status
classify_use t now = classify_status t.status (ltb_ℤ now t.expires_at)

unfoldable pub mark_used : ℤ → RefreshToken → RefreshToken
mark_used now t = record t { status = used; used_at = now }

unfoldable pub mark_revoked : ℤ → RefreshToken → RefreshToken
mark_revoked now t = record t { status = revoked; revoked_at = now }

unfoldable pub mark_compromised : ℤ → RefreshToken → RefreshToken
mark_compromised now t = record t { status = compromised; revoked_at = now }

-- `strings.IndexByte(token, '.')`, with the part before it and the part after it.
unfoldable pub cut_at_dot : Text → Option (Text × Text)
cut_at_dot [] = none
cut_at_dot (c ∷ cs) =
    let rest : Option (Text × Text) = elim (cut_at_dot cs) [
      | none ↦ none
      | some (a, b) ↦ some (c ∷ a, b)
    ] in
    if c == b'.' then some ([], cs) else rest

-- A dot at either end is malformed.
non_empty_halves : Option (Text × Text) → Option (Text × Text)
non_empty_halves none = none
non_empty_halves (some ([], v)) = none
non_empty_halves (some (c ∷ cs, [])) = none
non_empty_halves (some (c ∷ cs, d ∷ ds)) = some (c ∷ cs, d ∷ ds)

-- `none` stands for the pair of empty strings.
unfoldable pub split_selector_validator : Text → Option (Text × Text)
unfolding non_empty_halves
split_selector_validator token = non_empty_halves (cut_at_dot token)
