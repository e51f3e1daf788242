-- ===== src/Sync/Float.antt =====
-- Go's float64 as an interface: the operations that the sync service uses, and the facts about
-- IEEE 754 arithmetic that a theorem names when it relies on them.
use vibe_sync.Base.{
  ℕ, ◌+◌, ◌*◌, ◌/◌, ◌≤◌, ◌≡◌, refl, Bool, true, false, not, ℤ, pos, negsuc, pos_part, neg_part,
  ◌+ℤ◌, ◌-ℤ◌, ◌*ℤ◌, ltb_ℤ, quot, if◌then◌else◌, ◌==◌, ◌&&◌, arith, int_laws, Bool-cases, inl, inr,
}

pub record Float64 (F : Type 0) : Type 0 where
  pub add : F → F → F
  pub sub : F → F → F
  pub mul : F → F → F
  pub div : F → F → F
  pub neg : F → F
  -- `math.Abs`
  pub abs : F → F
  -- The tests `<`, `<=` and `==`; all three are false at a NaN.
  pub lt : F → F → Bool
  pub le : F → F → Bool
  pub eq : F → F → Bool
  -- The conversions `float64(n)` and `int64(x)`.
  pub of_int : ℤ → F
  pub to_int : F → ℤ
  -- A constant of the source, as a fraction.
  pub ratio : ℕ → ℕ → F
  pub is_nan : F → Bool

module _ {F : Type 0} ⦃fl : Float64 F⦄ where
  abbrev pub zero_f : F
  zero_f = fl.of_int (pos 0)

  abbrev pub one_f : F
  one_f = fl.of_int (pos 1)

  -- `Duration.Seconds`: whole seconds, plus the rest over 1e9.
  unfoldable pub seconds : ℤ → F
  seconds d =
      let whole = quot d 1000000000 in
      fl.add (fl.of_int whole)
        (fl.div (fl.of_int (d -ℤ whole *ℤ pos 1000000000)) (fl.of_int (pos 1000000000)))

-- Facts of IEEE 754 about `<`.
pub record LtLaws {F : Type 0} (fl : Float64 F) : Type 0 where
  pub lt_asym : (a b : F) → fl.lt a b ≡ true → fl.lt b a ≡ false
  pub not-lt_trans :
      (a b c : F) → fl.is_nan b ≡ false → fl.lt b a ≡ false → fl.lt c b ≡ false → fl.lt c a ≡ false

-- Facts of IEEE 754 about `<=`, and about comparisons with a NaN.
pub record LeLaws {F : Type 0} (fl : Float64 F) : Type 0 where
  pub le_refl : (a : F) → fl.is_nan a ≡ false → fl.le a a ≡ true
  pub not-lt-le :
      (a b : F) → fl.is_nan a ≡ false → fl.is_nan b ≡ false → fl.lt a b ≡ false → fl.le b a ≡ true
  pub lt_nan : (a b : F) → fl.is_nan a ≡ true → fl.lt b a ≡ false
  pub nan_lt : (a b : F) → fl.is_nan a ≡ true → fl.lt a b ≡ false

module _ {F : Type 0} ⦃fl : Float64 F⦄ where
  pub lt_irrefl : LtLaws fl → (a : F) → fl.lt a a ≡ false
  lt_irrefl l a = elim (Bool-cases (fl.lt a a)) [ inl e ↦ l.lt_asym a a e | inr e ↦ e ]

-- Facts about zero, and about the rates that the service accepts.
pub record RateLaws {F : Type 0} (fl : Float64 F) : Type 0 where
  pub zero-eq-zero : fl.eq (fl.of_int (pos 0)) (fl.of_int (pos 0)) ≡ true
  pub one-ne-zero : fl.eq (fl.of_int (pos 1)) (fl.of_int (pos 0)) ≡ false
  pub pos-ne-zero :
      (r : F) → fl.lt (fl.of_int (pos 0)) r ≡ true → fl.eq r (fl.of_int (pos 0)) ≡ false
  pub quarter_pos : (r : F) → fl.le (fl.ratio 25 100) r ≡ true → fl.lt (fl.of_int (pos 0)) r ≡ true
  pub one-ge-quarter : fl.le (fl.ratio 25 100) (fl.of_int (pos 1)) ≡ true
  pub one-le-four : fl.le (fl.of_int (pos 1)) (fl.ratio 4 1) ≡ true

-- Facts about numbers that are not below zero; a NaN is not below zero.
pub record NonnegLaws {F : Type 0} (fl : Float64 F) : Type 0 where
  pub zero_nonneg : fl.lt (fl.of_int (pos 0)) (fl.of_int (pos 0)) ≡ false
  pub ratio_nonneg : (n d : ℕ) → fl.lt (fl.ratio n d) (fl.of_int (pos 0)) ≡ false
  pub add_nonneg :
      (a b : F)
      → fl.lt a (fl.of_int (pos 0)) ≡ false
      → fl.lt b (fl.of_int (pos 0)) ≡ false
      → fl.lt (fl.add a b) (fl.of_int (pos 0)) ≡ false
  pub mul_nonneg :
      (a b : F)
      → fl.lt a (fl.of_int (pos 0)) ≡ false
      → fl.lt b (fl.of_int (pos 0)) ≡ false
      → fl.lt (fl.mul a b) (fl.of_int (pos 0)) ≡ false

-- An integer that float64 holds exactly.
abbrev pub IsExact : ℤ → Type 0
IsExact z = pos_part z + neg_part z ≤ 9007199254740992

-- Sums and differences of such integers are exact where they fit again, and so are halves.
pub record ExactLaws {F : Type 0} (fl : Float64 F) : Type 0 where
  pub of_int-add :
      (a b c : ℤ)
      → IsExact a
      → IsExact b
      → IsExact c
      → a +ℤ b ≡ c
      → fl.add (fl.of_int a) (fl.of_int b) ≡ fl.of_int c
  pub of_int-sub :
      (a b c : ℤ)
      → IsExact a
      → IsExact b
      → IsExact c
      → a -ℤ b ≡ c
      → fl.sub (fl.of_int a) (fl.of_int b) ≡ fl.of_int c
  pub lt-of_int : (a b : ℤ) → IsExact a → IsExact b → fl.lt (fl.of_int a) (fl.of_int b) ≡ ltb_ℤ a b

-- Facts about converting integers and scaling them.
pub record ScaleLaws {F : Type 0} (fl : Float64 F) : Type 0 where
  -- Zero times a rate that is no infinity and no NaN is a zero, and converts to 0.
  pub scale_zero :
      (r : F)
      → fl.is_nan (fl.mul (fl.of_int (pos 0)) r) ≡ false
      → fl.to_int (fl.mul (fl.of_int (pos 0)) r) ≡ pos 0
  -- Integers up to 2^53 are exact, and 1.0 is neutral.
  pub scale_one :
      (n : ℕ)
      → n ≤ 9007199254740992
      → fl.to_int (fl.mul (fl.of_int (pos n)) (fl.of_int (pos 1))) ≡ pos n

-- Thousandths as integers: exact arithmetic in which the code can be run.
unfoldable pub div_milli : ℤ → ℤ → ℤ
div_milli a b =
    if pos_part b + neg_part b == 0
    then pos 0
    else quot (a *ℤ pos 1000 *ℤ (if pos_part b == 0 then negsuc 0 else pos 1))
        (pos_part b + neg_part b)

abbrev pub abs_ℤ : ℤ → ℤ
abs_ℤ a = pos (pos_part a + neg_part a)

unfoldable pub mul_milli : ℤ → ℤ → ℤ
mul_milli a b = quot (a *ℤ b) 1000

unfoldable pub to_int_milli : ℤ → ℤ
to_int_milli a = quot a 1000

instance abbrev pub milli : Float64 ℤ
milli = record {
  add = ◌+ℤ◌;
  sub = ◌-ℤ◌;
  mul = mul_milli;
  div = div_milli;
  neg = λ a. pos 0 -ℤ a;
  abs = abs_ℤ;
  lt = ltb_ℤ;
  le = λ a b. not (ltb_ℤ b a);
  eq = λ a b. pos_part a == pos_part b && neg_part a == neg_part b;
  of_int = λ a. a *ℤ pos 1000;
  to_int = to_int_milli;
  ratio = λ n d. pos (n * 1000 / d);
  is_nan = λ a. false;
}

pub milli-LtLaws : LtLaws milli
milli-LtLaws = record {
  lt_asym = λ a b h. ground arith;
  not-lt_trans = λ a b c n h k. ground arith;
}

pub milli-LeLaws : LeLaws milli
milli-LeLaws = record {
  le_refl = λ a n. ground arith;
  not-lt-le = λ a b n m h. ground (arith, h);
  lt_nan = λ a b n. absurd (ground arith);
  nan_lt = λ a b n. absurd (ground arith);
}

pub milli-RateLaws : RateLaws milli
unfolding ◌*ℤ◌
milli-RateLaws = record {
  zero-eq-zero = refl;
  one-ne-zero = refl;
  pos-ne-zero = λ r h. ground arith;
  quarter_pos = λ r h. ground arith;
  one-ge-quarter = refl;
  one-le-four = refl;
}

pub milli-ScaleLaws : ScaleLaws milli
unfolding ◌*ℤ◌ mul_milli to_int_milli quot
milli-ScaleLaws = record { scale_zero = λ r h. ground arith; scale_one = λ n h. ground arith }

mul_milli_nonneg :
    (a b : ℤ)
    → ltb_ℤ a (pos 0) ≡ false
    → ltb_ℤ b (pos 0) ≡ false
    → ltb_ℤ (mul_milli a b) (pos 0) ≡ false
unfolding mul_milli quot ◌*ℤ◌
mul_milli_nonneg (pos m) (pos n) h k = ground arith
mul_milli_nonneg (negsuc m) b h k = absurd (ground arith)
mul_milli_nonneg (pos m) (negsuc n) h k = absurd (ground arith)

scale_parts :
    (a : ℤ)
    → (pos_part (a *ℤ pos 1000) ≡ pos_part a * 1000)
      × (neg_part (a *ℤ pos 1000) ≡ neg_part a * 1000)
unfolding ◌*ℤ◌
scale_parts (pos n) = ground arith
scale_parts (negsuc n) = ground arith

pub milli-NonnegLaws : NonnegLaws milli
unfolding ◌*ℤ◌ ◌+ℤ◌ mul_milli quot
milli-NonnegLaws = record {
  zero_nonneg = refl;
  ratio_nonneg = λ n d. ground arith;
  add_nonneg = λ a b h k. ground arith;
  mul_nonneg = mul_milli_nonneg;
}

pub milli-ExactLaws : ExactLaws milli
milli-ExactLaws = record {
  of_int-add = λ a b c h k m e. rw (← e) (omega (int_laws, scale_parts));
  of_int-sub = λ a b c h k m e. rw (← e) (omega (int_laws, scale_parts));
  lt-of_int = λ a b h k. ground (arith, scale_parts a, scale_parts b);
}
