-- ===== src/Sync/Drift.antt =====
-- apps/sync-service/internal/domain/controller.go: the P+I drift controller.
pub mod Windup
use vibe_sync.Base.{ℕ, Bool, true, false, ℤ, ltb, if◌then◌else◌}
use vibe_sync.Sync.Float.{Float64, zero_f, seconds}

pub record DriftController (F : Type 0) : Type 0 where
  pub kp : F
  pub ki : F
  pub integral_clamp_ms : F
  pub discontinuity_threshold_ms : F
  pub integral : F

pub record ControllerResult (F : Type 0) : Type 0 where
  pub correction_ms : F
  pub force_snapshot : Bool

module _ {F : Type 0} ⦃fl : Float64 F⦄ where
  unfoldable pub new_drift_controller : DriftController F
  new_drift_controller = record {
    kp = fl.ratio 15 100;
    ki = fl.ratio 2 100;
    integral_clamp_ms = fl.ratio 200 1;
    discontinuity_threshold_ms = fl.ratio 2000 1;
    integral = zero_f;
  }

  abbrev pub skip : ControllerResult F
  skip = record { correction_ms = zero_f; force_snapshot = false }

  -- Anti-windup.
  unfoldable pub clamp_integral : F → F → F
  clamp_integral limit i =
      if fl.lt limit i then limit else if fl.lt i (fl.neg limit) then fl.neg limit else i

  unfoldable pub reset : DriftController F → DriftController F
  reset dc = record dc { integral = zero_f }

  unfoldable pub accumulate : F → ℤ → DriftController F → DriftController F
  accumulate drift dt dc =
      let i = fl.add dc.integral (fl.mul drift (seconds dt)) in
      record dc { integral = clamp_integral dc.integral_clamp_ms i }

  unfoldable pub correct :
      F → ℤ → ℕ → ℕ → DriftController F → ControllerResult F × DriftController F
  correct drift dt active_peers confidence dc =
      let after = accumulate drift dt dc in
      let correction = fl.add (fl.mul dc.kp drift) (fl.mul dc.ki after.integral) in
      if ltb active_peers 2
      then (skip, dc)
      else if ltb confidence 30
      then (skip, dc)
      else if fl.lt dc.discontinuity_threshold_ms (fl.abs drift)
      then (
        record { correction_ms = zero_f; force_snapshot = true },
        record dc { integral = zero_f },
      )
      else (record { correction_ms = correction; force_snapshot = false }, after)
