-- ===== src/Auth/Tokens/Use.antt =====
-- What presenting a token amounts to: ClassifyUse against the table of ADR-0011.
use vibe_sync.Base.{◌≡◌, ◌↔◌, ℤ, ◌<ℤ◌, arith}
use vibe_sync.Auth.Tokens.{
  RefreshToken, active, used, compromised, classify_use, rotate, reuse, family_compromised,
}

-- A token is rotated exactly if it is active and has not expired, counts as reused exactly if it
-- was used and has not expired, and as compromised exactly if its family is.
pub classify_use_table :
    (t : RefreshToken) (now : ℤ)
    → ((classify_use t now ≡ rotate) ↔ ((t.status ≡ active) × (now <ℤ t.expires_at)))
      × ((classify_use t now ≡ reuse) ↔ ((t.status ≡ used) × (now <ℤ t.expires_at)))
      × ((classify_use t now ≡ family_compromised) ↔ (t.status ≡ compromised))
unfolding classify_use
classify_use_table t now = (
  (λ h. ground arith, λ h. ground arith),
  (λ h. ground arith, λ h. ground arith),
  (λ h. ground arith, λ h. ground arith),
)
