-- ===== src/Auth/Names/Loops.antt =====
-- The two loops of trimUnderscores, as they are written, on fuel.
use vibe_sync.Base.{
  ℕ, zero, suc, ◌<◌, ◌==◌, ◌≡◌, refl, Bool-cases, inl, inr, Option, none, some, [], ◌∷◌, length,
  arith, if◌then◌else◌, true, false,
}
use vibe_sync.Auth.Tokens.{Text}
use vibe_sync.Auth.Names.{ends_in_underscore, trim_front, trim_back, trim_underscores}

-- `for len(b) > 0 && b[0] == '_' { b = b[1:] }`; `none` tells that the fuel ran out.
unfoldable pub front_loop : ℕ → Text → Option Text
front_loop zero b = none
front_loop (suc f) [] = some []
front_loop (suc f) (c ∷ cs) =
    let rest = front_loop f cs in if c == b'_' then rest else some (c ∷ cs)

unfoldable pub drop_last : Text → Text
drop_last [] = []
drop_last (c ∷ []) = []
drop_last (c ∷ d ∷ ds) = c ∷ drop_last (d ∷ ds)

-- `for len(b) > 0 && b[len(b)-1] == '_' { b = b[:len(b)-1] }`
unfoldable pub back_loop : ℕ → Text → Option Text
unfolding drop_last
back_loop zero b = none
back_loop (suc f) b =
    let rest = back_loop f (drop_last b) in if ends_in_underscore b then rest else some b

abbrev then_back : ℕ → Option Text → Option Text
then_back f none = none
then_back f (some b) = back_loop f b

unfoldable pub trim_loops : ℕ → Text → Option Text
unfolding front_loop back_loop
trim_loops f b = then_back f (front_loop f b)

front_loop_ends : (f : ℕ) (b : Text) → length b < f → front_loop f b ≡ some (trim_front b)
unfolding front_loop trim_front
front_loop_ends zero b h = absurd (omega arith)
front_loop_ends (suc f) [] h = refl
front_loop_ends (suc f) (c ∷ cs) h = ground (arith, front_loop_ends f cs)

length-trim_front : (b : Text) → length (trim_front b) < suc (length b)
unfolding trim_front
length-trim_front [] = omega arith
length-trim_front (c ∷ cs) = ground (arith, length-trim_front cs)

length-drop_last : (b : Text) → ends_in_underscore b ≡ true → length (drop_last b) < length b
unfolding drop_last
length-drop_last [] h = absurd (ground (arith, h))
length-drop_last (c ∷ []) h = omega arith
length-drop_last (c ∷ d ∷ ds) h = omega (arith, length-drop_last (d ∷ ds) h)

trim_back-drop_last :
    (b : Text) → ends_in_underscore b ≡ true → trim_back b ≡ trim_back (drop_last b)
unfolding trim_back drop_last
trim_back-drop_last [] h = refl
trim_back-drop_last (c ∷ []) h = ground (arith, h)
trim_back-drop_last (c ∷ d ∷ ds) h = rw (trim_back-drop_last (d ∷ ds) h, trim_back) refl

trim_back-clean : (b : Text) → ends_in_underscore b ≡ false → trim_back b ≡ b
unfolding trim_back
trim_back-clean [] h = refl
trim_back-clean (c ∷ []) h = ground (arith, h)
trim_back-clean (c ∷ d ∷ ds) h = rw (trim_back-clean (d ∷ ds) h, trim_back) refl

back_loop_ends : (f : ℕ) (b : Text) → length b < f → back_loop f b ≡ some (trim_back b)
unfolding back_loop
back_loop_ends zero b h = absurd (omega arith)
back_loop_ends (suc f) b h = elim (Bool-cases (ends_in_underscore b)) [
  | inl more ↦
      rw (more, trim_back-drop_last b more)
        (back_loop_ends f (drop_last b) (omega (arith, length-drop_last b more)))
  | inr done ↦ rw (done, trim_back-clean b done) refl
]

-- With more fuel than the text has characters both loops end, and what is left is the text without
-- the underscores at its two ends.
pub trim_loops_end : (f : ℕ) (b : Text) → length b < f → trim_loops f b ≡ some (trim_underscores b)
unfolding trim_loops trim_underscores
trim_loops_end f b h =
    rw (front_loop_ends f b h)
      (back_loop_ends f (trim_front b) (omega (arith, length-trim_front b)))
