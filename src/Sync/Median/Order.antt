-- ===== src/Sync/Median/Order.antt =====
-- The aggregates of heartbeat.go against the order of the values.
use mathlib.Core.List.{reverse, reverse-cons, Perm, perm_middle, reverse_perm, append-nil}
use vibe_sync.Base.{
  ℕ, zero, suc, ◌+◌, ◌<◌, ◌≡◌, refl, subst, List, [], ◌∷◌, ◌++◌, All, All-append, length,
  length-append, get_or, if_true, if_false, ap, ◌/◌, ◌%◌, ◌∙◌, arith, Bool-cases, false, inl, inr,
}
use vibe_sync.Sync.Float.{Float64, zero_f, LtLaws, lt_irrefl}
use vibe_sync.Sync.Median.{
  sink, sort_onto, insertion_sort, middle, median_floats, max_abs_from, max_abs_floats,
}
use mathlib.Core.List.Perm

module _ {F : Type 0} ⦃fl : Float64 F⦄ where
  abbrev pub IsNumber : F → Type 0
  IsNumber x = fl.is_nan x ≡ false

  -- No earlier value is below a later one.
  abbrev pub IsDesc : List F → Type 0
  IsDesc [] = Unit
  IsDesc (x ∷ xs) = All (λ y. fl.lt x y ≡ false) xs × IsDesc xs

  abbrev pub IsAsc : List F → Type 0
  IsAsc [] = Unit
  IsAsc (x ∷ xs) = All (λ y. fl.lt y x ≡ false) xs × IsAsc xs

  sink-perm : (key : F) (xs : List F) → Perm (sink key xs) (key ∷ xs)
  unfolding sink
  sink-perm key [] = Perm.refl (key ∷ [])
  sink-perm key (y ∷ ys) = elim (Bool-cases (fl.lt key y)) [
    | inl e ↦ rw e (Perm.trans (Perm.cons y (sink-perm key ys)) (Perm.swap key y ys))
    | inr e ↦ rw e (Perm.refl (key ∷ y ∷ ys))
  ]

  sort_onto-perm : (xs prefix : List F) → Perm (sort_onto prefix xs) (xs ++ prefix)
  unfolding sort_onto
  sort_onto-perm [] prefix = Perm.refl prefix
  sort_onto-perm (x ∷ xs) prefix =
      Perm.trans (sort_onto-perm xs (sink x prefix)) (
        Perm.trans (Perm.append (Perm.refl xs) (sink-perm x prefix))
          (perm_middle {a = x} xs prefix))

  All-sink : (P : F → Type 0) (key : F) (xs : List F) → P key → All P xs → All P (sink key xs)
  unfolding sink
  All-sink P key [] k h = (k, tt)
  All-sink P key (y ∷ ys) k h = elim (Bool-cases (fl.lt key y)) [
    | inl e ↦ rw e (h.0, All-sink P key ys k h.1)
    | inr e ↦ rw e (k, (h.0, h.1))
  ]

  below-All :
      (key y : F) (ys : List F)
      → LtLaws fl
      → IsNumber y
      → fl.lt key y ≡ false
      → All (λ z. fl.lt y z ≡ false) ys
      → All (λ z. fl.lt key z ≡ false) ys
  below-All key y [] l n h a = tt
  below-All key y (z ∷ zs) l n h a = (l.not-lt_trans z y key n a.0 h, below-All key y zs l n h a.1)

  sink-IsDesc :
      (key : F) (xs : List F) → LtLaws fl → All IsNumber xs → IsDesc xs → IsDesc (sink key xs)
  unfolding sink
  sink-IsDesc key [] l n h = (tt, tt)
  sink-IsDesc key (y ∷ ys) l n h = elim (Bool-cases (fl.lt key y)) [
    | inl e ↦ rw e (
      All-sink (λ z. fl.lt y z ≡ false) key ys (l.lt_asym key y e) h.0,
      sink-IsDesc key ys l n.1 h.1,
    )
    | inr e ↦ rw e ((e, below-All key y ys l n.0 e h.0), h)
  ]

  sort_onto-IsDesc :
      (xs prefix : List F)
      → LtLaws fl
      → All IsNumber xs
      → All IsNumber prefix
      → IsDesc prefix
      → IsDesc (sort_onto prefix xs)
  unfolding sort_onto
  sort_onto-IsDesc [] prefix l nx n h = h
  sort_onto-IsDesc (x ∷ xs) prefix l nx n h =
      sort_onto-IsDesc xs (sink x prefix) l nx.1 (All-sink IsNumber x prefix nx.0 n)
        (sink-IsDesc x prefix l n h)

  IsAsc-snoc :
      (xs : List F) (x : F) → IsAsc xs → All (λ y. fl.lt x y ≡ false) xs → IsAsc (xs ++ x ∷ [])
  IsAsc-snoc [] x h a = (tt, tt)
  IsAsc-snoc (y ∷ ys) x h a = (All-append _ ys (x ∷ []) h.0 (a.0, tt), IsAsc-snoc ys x h.1 a.1)

  All-reverse : (P : F → Type 0) (xs : List F) → All P xs → All P (reverse xs)
  All-reverse P [] h = tt
  All-reverse P (x ∷ xs) h =
      rw (reverse-cons x xs) (All-append P (reverse xs) (x ∷ []) (All-reverse P xs h.1) (h.0, tt))

  reverse-IsAsc : (xs : List F) → IsDesc xs → IsAsc (reverse xs)
  reverse-IsAsc [] h = tt
  reverse-IsAsc (x ∷ xs) h =
      rw (reverse-cons x xs)
        (IsAsc-snoc (reverse xs) x (reverse-IsAsc xs h.1) (All-reverse _ xs h.0))

  -- Without NaNs the sort returns the same values, none below one before it.
  pub insertion_sort_correct :
      (vals : List F)
      → LtLaws fl
      → All IsNumber vals
      → Perm (insertion_sort vals) vals × IsAsc (insertion_sort vals)
  unfolding insertion_sort
  insertion_sort_correct vals l n = (
    Perm.trans (reverse_perm (sort_onto [] vals))
        (subst (Perm (sort_onto [] vals)) (append-nil vals) (sort_onto-perm vals [])),
    reverse-IsAsc (sort_onto [] vals) (sort_onto-IsDesc vals [] l n tt tt),
  )

  split_at :
      (k : ℕ) (xs : List F) (d : F)
      → k < length xs
      → (lower : List F) × (upper : List F) × (xs ≡ lower ++ get_or xs k d ∷ upper)
        × (length lower ≡ k)
  split_at k [] d h = absurd (omega arith)
  split_at zero (x ∷ xs) d h = ([], xs, refl, refl)
  split_at (suc k) (x ∷ xs) d h =
      let (lower, upper, e, n) = split_at k xs d (omega arith) in (x ∷ lower, upper, cc, cc)

  All-middle :
      (P : F → Type 0) (lower : List F) (m : F) (upper : List F) → All P (lower ++ m ∷ upper) → P m
  All-middle P [] m upper h = h.0
  All-middle P (x ∷ lower) m upper h = All-middle P lower m upper h.1

  IsAsc-split :
      (lower : List F) (m : F) (upper : List F)
      → IsAsc (lower ++ m ∷ upper)
      → All (λ v. fl.lt m v ≡ false) lower × All (λ v. fl.lt v m ≡ false) upper
  IsAsc-split [] m upper h = (tt, h.0)
  IsAsc-split (x ∷ lower) m upper h =
      let rest = IsAsc-split lower m upper h.1 in ((All-middle _ lower m upper h.0, rest.0), rest.1)

  length-sink : (key : F) (xs : List F) → length (sink key xs) ≡ suc (length xs)
  unfolding sink
  length-sink key [] = refl
  length-sink key (y ∷ ys) = ground (arith, length-sink key ys)

  length-sort_onto : (xs prefix : List F) → length (sort_onto prefix xs) ≡ length xs + length prefix
  unfolding sort_onto
  length-sort_onto [] prefix = omega arith
  length-sort_onto (x ∷ xs) prefix =
      omega (arith, length-sort_onto xs (sink x prefix), length-sink x prefix)

  length-reverse : (xs : List F) → length (reverse xs) ≡ length xs
  length-reverse [] = refl
  length-reverse (x ∷ xs) =
      omega (
        arith,
        ap length (reverse-cons x xs),
        length-append (reverse xs) (x ∷ []),
        length-reverse xs,
      )

  length-insertion_sort : (xs : List F) → length (insertion_sort xs) ≡ length xs
  unfolding insertion_sort
  length-insertion_sort xs = omega (arith, length-reverse (sort_onto [] xs), length-sort_onto xs [])

  middle_odd : (xs : List F) (k : ℕ) → length xs ≡ k + k + 1 → middle xs ≡ get_or xs k zero_f
  unfolding middle
  middle_odd xs k h =
      let half : length xs / 2 ≡ k = omega arith in
      let odd : length xs % 2 ≡ 1 = omega arith in rw (half, odd)

  -- Of an odd number of values, none of them a NaN, the median is one, with as many before it as
  -- after it, none of those before it above it, and none of those after it below it.
  pub median_rank :
      (v : F) (vs : List F) (k : ℕ)
      → LtLaws fl
      → All IsNumber (v ∷ vs)
      → length (v ∷ vs) ≡ k + k + 1
      → let m = median_floats (v ∷ vs) in
        (lower : List F) × (upper : List F) × Perm (lower ++ m ∷ upper) (v ∷ vs)
        × (length lower ≡ k)
        × (length upper ≡ k)
        × All (λ x. fl.lt m x ≡ false) lower
        × All (λ x. fl.lt x m ≡ false) upper
  unfolding median_floats
  median_rank v vs k l n h =
      let sorted = insertion_sort (v ∷ vs) in
      let (perm, asc) = insertion_sort_correct (v ∷ vs) l n in
      let size = length-insertion_sort (v ∷ vs) in
      let mid = middle_odd sorted k (size ∙ h) in
      let (lower, upper, e, at) = split_at k sorted zero_f (omega (arith, size)) in
      let parts = IsAsc-split lower (get_or sorted k zero_f) upper (subst IsAsc e asc) in
      rw mid (
        lower,
        upper,
        subst (λ s. Perm s (v ∷ vs)) e perm,
        at,
        omega (arith, ap length e, length-append lower (get_or sorted k zero_f ∷ upper), size),
        parts.0,
        parts.1,
      )

  abbrev Bounds : F → F → List F → Type 0
  Bounds r best vs = (fl.lt r best ≡ false) × All (λ v. fl.lt r (fl.abs v) ≡ false) vs

  max_abs_from_bound :
      (vs : List F) (best : F)
      → LtLaws fl
      → IsNumber best
      → All (λ v. IsNumber (fl.abs v)) vs
      → Bounds (max_abs_from best vs) best vs
  unfolding max_abs_from
  max_abs_from_bound [] best l b n = (lt_irrefl l best, tt)
  max_abs_from_bound (v ∷ vs) best l b n = elim (Bool-cases (fl.lt best (fl.abs v))) [
    | inl e ↦
        let (up, rest) = max_abs_from_bound vs (fl.abs v) l n.0 n.1 in
        subst (λ b. Bounds (max_abs_from b vs) best (v ∷ vs)) (if_true (fl.abs v) best e)
          (l.not-lt_trans best (fl.abs v) _ n.0 (l.lt_asym _ _ e) up, (up, rest))
    | inr e ↦
        let (up, rest) = max_abs_from_bound vs best l b n.1 in
        subst (λ b. Bounds (max_abs_from b vs) best (v ∷ vs)) (if_false (fl.abs v) best e)
          (up, (l.not-lt_trans (fl.abs v) best _ b e up, rest))
  ]

  -- No value lies farther from zero than the reported worst case.
  pub max_abs_floats_bound :
      (vals : List F)
      → LtLaws fl
      → All (λ v. IsNumber (fl.abs v)) vals
      → All (λ v. fl.lt (max_abs_floats vals) (fl.abs v) ≡ false) vals
  unfolding max_abs_floats
  max_abs_floats_bound [] l n = tt
  max_abs_floats_bound (v ∷ vs) l n = max_abs_from_bound vs (fl.abs v) l n.0 n.1
