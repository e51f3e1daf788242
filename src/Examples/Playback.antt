-- ===== src/Examples/Playback.antt =====
-- Examples on playback, heartbeats, the median and the drift controller.
use vibe_sync.Sync.Float.{
  milli-LeLaws, seconds, mul_milli, to_int_milli, milli, milli-LtLaws, milli-ScaleLaws,
}
use vibe_sync.Base.{
  ◌⊎◌, true, ◌+ℤ◌, quot, sub64, wrap64, add64, ◌*ℤ◌, ◌-ℤ◌, refl, pos, negsuc, ℤ, ◌≡◌, arith, [],
  ◌∷◌, List,
}
use vibe_sync.Sync.State.{SyncState, cmd_play, apply_command, sample, advance_media_time}
use vibe_sync.Sync.State.Commands.{position_at, apply_command_continuous}
use vibe_sync.Sync.Heartbeat.Estimate.{Beat, Exchange}
use vibe_sync.Sync.Median.{insertion_sort}
use vibe_sync.Sync.Median.Order.{IsAsc, insertion_sort_correct}
use vibe_sync.Sync.Drift.{correct}
use vibe_sync.Sync.Drift.Windup.{HasLimit, IsWithin, correct-IsWithin}
use vibe_sync.Examples.Data.{movie, controller, now, now_ms, no_payload}
use mathlib.Core.List.{Perm}

abbrev film : SyncState ℤ
film = movie "ann" ""

apply_command_continuous_example :
    advance_media_time (apply_command cmd_play no_payload now_ms now film) now_ms
    ≡ position_at film now_ms
unfolding sample advance_media_time sub64 wrap64 add64 mul_milli to_int_milli quot ◌*ℤ◌ ◌+ℤ◌ ◌-ℤ◌
apply_command_continuous_example =
    apply_command_continuous cmd_play no_payload now_ms now film milli-ScaleLaws refl
      (ground arith, ground arith) refl

abbrev late_beats : List Beat
late_beats =
    record { t1 = pos 100; t2 = pos 90; t3 = pos 200; now = pos 1 }
    ∷ record { t1 = pos 120; t2 = pos 300; t3 = pos 301; now = pos 2 }
    ∷ []

-- A second between two heartbeats, 20 ms of network each way.
abbrev second_apart : Exchange
second_apart = record {
  t1 = pos 5000;
  theta = pos 30;
  request = 20;
  work = 1;
  response = 20;
  pause = 1000;
}

abbrev values : List ℤ
values = pos 30 ∷ negsuc 4 ∷ pos 7 ∷ []

insertion_sort_correct_example : Perm (insertion_sort values) values × IsAsc (insertion_sort values)
insertion_sort_correct_example =
    insertion_sort_correct values milli-LtLaws (refl, (refl, (refl, tt)))

controller-HasLimit : HasLimit controller.integral_clamp_ms
unfolding ◌*ℤ◌ ◌-ℤ◌
controller-HasLimit = record {
  numbers = (refl, refl, refl);
  zero_below = refl;
  zero_above = refl;
  sides = refl;
}

correct-IsWithin_example :
    let sum = controller.integral +ℤ mul_milli (pos 900000) (seconds (pos 1000000000)) in
    let after = (correct (pos 900000) (pos 1000000000) 3 60 controller).1 in
    IsWithin controller.integral_clamp_ms after.integral
    ⊎ ((milli.is_nan sum ≡ true) × (after.integral ≡ sum))
unfolding ◌*ℤ◌ ◌-ℤ◌
correct-IsWithin_example =
    correct-IsWithin (pos 900000) (pos 1000000000) 3 60 controller milli-LeLaws controller-HasLimit
      (refl, refl)
