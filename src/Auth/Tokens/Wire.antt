-- ===== src/Auth/Tokens/Wire.antt =====
-- The wire form "<selector>.<validator>" of a token.
use vibe_sync.Base.{[], ◌∷◌, ◌++◌, ◌≡◌, ◌≢◌, refl, some, true, false, ◌==◌, ◌↔◌, All, arith}
use vibe_sync.Auth.Tokens.{
  Text, text_eq, presentation_token, cut_at_dot, split_selector_validator, ValidatorMaterial,
}

-- The alphabet of base64url has no dot.
abbrev pub NoDot : Text → Type 0
NoDot = All (λ c. (c == b'.') ≡ false)

cut_at_dot-append : (a b : Text) → NoDot a → cut_at_dot (a ++ (b'.' ∷ b)) ≡ some (a, b)
unfolding cut_at_dot
cut_at_dot-append [] b h = refl
cut_at_dot-append (c ∷ cs) b h = ground (arith, cut_at_dot-append cs b h.1)

-- What a client gets at a rotation is read back as the same selector and validator.
pub split-presentation :
    (v : ValidatorMaterial)
    → NoDot v.selector
    → v.selector ≢ []
    → v.validator ≢ []
    → split_selector_validator (presentation_token v) ≡ some (v.selector, v.validator)
unfolding split_selector_validator presentation_token
split-presentation v d s w = ground (arith, cut_at_dot-append v.selector v.validator d)

pub text_eq_iff : (xs ys : Text) → (text_eq xs ys ≡ true) ↔ (xs ≡ ys)
unfolding text_eq
text_eq_iff [] [] = (λ h. refl, λ h. refl)
text_eq_iff [] (y ∷ ys) = (λ h. cc, λ h. cc)
text_eq_iff (x ∷ xs) [] = (λ h. cc, λ h. cc)
text_eq_iff (x ∷ xs) (y ∷ ys) =
    (λ h. ground (arith, text_eq_iff xs ys), λ h. ground (arith, text_eq_iff xs ys))
