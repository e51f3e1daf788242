-- ===== src/Sync/Drift/Windup.antt =====
-- The controller of controller.go never winds up, and skips what it should skip.
use vibe_sync.Base.{Bool-cases, inl, inr, ℕ, ◌≡◌, ◌⊎◌, true, false, ℤ, arith, ◌<◌, ◌≤◌, ◌↔◌}
use vibe_sync.Sync.Float.{LeLaws, seconds, Float64, zero_f}
use vibe_sync.Sync.Drift.{DriftController, clamp_integral, accumulate, correct}

module _ {F : Type 0} ⦃fl : Float64 F⦄ where
  -- The limit and zero are numbers, and zero lies within the limit on either side.
  pub record HasLimit (limit : F) : Type 0 where
    pub numbers :
        (fl.is_nan limit ≡ false) × (fl.is_nan (fl.neg limit) ≡ false) × (fl.is_nan zero_f ≡ false)
    pub zero_below : fl.le zero_f limit ≡ true
    pub zero_above : fl.le (fl.neg limit) zero_f ≡ true
    pub sides : fl.le (fl.neg limit) limit ≡ true

  -- On either side of the limit.
  abbrev pub IsWithin : F → F → Type 0
  IsWithin limit i = (fl.le i limit ≡ true) × (fl.le (fl.neg limit) i ≡ true)

  clamp-IsWithin :
      (limit i : F)
      → LeLaws fl
      → HasLimit limit
      → fl.is_nan i ≡ false
      → IsWithin limit (clamp_integral limit i)
  unfolding clamp_integral
  clamp-IsWithin limit i l h n = ground (
    arith,
    n,
    h.numbers,
    h.sides,
    l.le_refl limit (h.numbers.0),
    l.le_refl (fl.neg limit) (h.numbers.1),
    l.not-lt-le limit i,
    l.not-lt-le i (fl.neg limit),
  )

  clamp-nan : (limit i : F) → LeLaws fl → fl.is_nan i ≡ true → clamp_integral limit i ≡ i
  unfolding clamp_integral
  clamp-nan limit i l n = ground (arith, l.lt_nan i limit n, l.nan_lt i (fl.neg limit) n)

  -- From an integral that lies within the limit on either side, a cycle leaves one that lies within
  -- it, unless the integral and the product of the drift and the time add up to a NaN: that sum can
  -- stay as the integral, since the clamp does not catch it.
  pub correct-IsWithin :
      (drift : F) (dt : ℤ) (peers confidence : ℕ) (dc : DriftController F)
      → LeLaws fl
      → HasLimit dc.integral_clamp_ms
      → IsWithin dc.integral_clamp_ms dc.integral
      → let sum = fl.add dc.integral (fl.mul drift (seconds dt)) in
        let after = (correct drift dt peers confidence dc).1 in
        IsWithin dc.integral_clamp_ms after.integral
        ⊎ ((fl.is_nan sum ≡ true) × (after.integral ≡ sum))
  unfolding correct accumulate
  correct-IsWithin drift dt peers confidence dc l h w =
      let sum = fl.add dc.integral (fl.mul drift (seconds dt)) in
      elim (Bool-cases (fl.is_nan sum)) [
        | inl t ↦
            ground (arith, t, w, h.zero_below, h.zero_above, clamp-nan dc.integral_clamp_ms sum l t)
        | inr n ↦
            ground
              (arith, w, h.zero_below, h.zero_above, clamp-IsWithin dc.integral_clamp_ms sum l h n)
      ]

  -- A cycle asks for a snapshot exactly with at least two peers, a confidence of at least 30 and a
  -- drift beyond the threshold. One with fewer peers or less confidence corrects nothing and
  -- leaves the controller as it is; any other clears the integral or adds the drift to it.
  pub correct_guards :
      (drift : F) (dt : ℤ) (peers confidence : ℕ) (dc : DriftController F)
      → let (r, dc') = correct drift dt peers confidence dc in
        let large = fl.lt dc.discontinuity_threshold_ms (fl.abs drift) in
        ((r.force_snapshot ≡ true) ↔ ((2 ≤ peers) × (30 ≤ confidence) × (large ≡ true)))
        × (((peers < 2) ⊎ (confidence < 30)) × (r.correction_ms ≡ zero_f) × (dc' ≡ dc)
            ⊎ (2 ≤ peers)
              × (30 ≤ confidence)
              × ((dc'.integral ≡ zero_f) ⊎ (dc' ≡ accumulate drift dt dc)))
  unfolding correct
  correct_guards drift dt peers confidence dc =
      ((λ h. ground arith, λ h. ground arith), ground arith)
