-- ===== src/Sync/Median.antt =====
-- apps/sync-service/internal/domain/heartbeat.go: aggregates over the clients of a room.
pub mod Order
use mathlib.Core.List.{reverse}
use vibe_sync.Base.{ℕ, ◌-◌, ◌/◌, ◌%◌, Bool, List, [], ◌∷◌, length, if◌then◌else◌, ◌==◌, pos, get_or}
use vibe_sync.Sync.Float.{Float64, zero_f}

module _ {F : Type 0} ⦃fl : Float64 F⦄ where
  -- The inner loop: `key` moves down past the greater values. The sorted prefix is held from its
  -- right end, the greatest value first.
  unfoldable pub sink : F → List F → List F
  sink key [] = key ∷ []
  sink key (y ∷ ys) = let rest = sink key ys in if fl.lt key y then y ∷ rest else key ∷ y ∷ ys

  unfoldable pub sort_onto : List F → List F → List F
  sort_onto prefix [] = prefix
  sort_onto prefix (x ∷ xs) = sort_onto (sink x prefix) xs

  unfoldable pub insertion_sort : List F → List F
  insertion_sort vals = reverse (sort_onto [] vals)

  -- Indices are in range: `mid < len` for a non-empty slice.
  middle : List F → F
  middle sorted =
      let mid = length sorted / 2 in
      let upper = get_or sorted mid zero_f in
      if length sorted % 2 == 0
      then fl.div (fl.add (get_or sorted (mid - 1) zero_f) upper) (fl.of_int (pos 2))
      else upper

  unfoldable pub median_floats : List F → F
  unfolding insertion_sort middle
  median_floats [] = zero_f
  median_floats (x ∷ xs) = middle (insertion_sort (x ∷ xs))

  max_abs_from : F → List F → F
  max_abs_from best [] = best
  max_abs_from best (v ∷ vs) =
      let a = fl.abs v in max_abs_from (if fl.lt best a then a else best) vs

  unfoldable pub max_abs_floats : List F → F
  unfolding max_abs_from
  max_abs_floats [] = zero_f
  max_abs_floats (v ∷ vs) = max_abs_from (fl.abs v) vs
