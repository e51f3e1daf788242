-- ===== src/Auth/Names/Derived.antt =====
-- The derived username against the check of usernames.
use vibe_sync.Base.{
  ℕ, ◌+◌, ◌≤◌, ◌<◌, ltb, ◌≡◌, refl, Bool, true, false, ◌||◌, [], ◌∷◌, ◌++◌, length, length-append,
  arith,
}
use vibe_sync.Auth.Tokens.{Text}
use vibe_sync.Auth.Names.{
  is_lower, is_word, all_word, is_username, add_cleaned, clean, trim_front, trim_back,
  trim_underscores, sanitized, with_letter, local_part, derive_username,
}

all_word-append :
    (xs : Text) (c : ℕ) → all_word xs ≡ true → is_word c ≡ true → all_word (xs ++ (c ∷ [])) ≡ true
unfolding all_word
all_word-append [] c h k = ground arith
all_word-append (x ∷ xs) c h k = ground (arith, all_word-append xs c)

add_cleaned-word : (c : ℕ) (out : Text) → all_word out ≡ true → all_word (add_cleaned c out) ≡ true
unfolding add_cleaned
add_cleaned-word c out h =
    ground (arith, all_word-append out c, all_word-append out (c + 32), all_word-append out b'_')

length-add_cleaned : (c : ℕ) (out : Text) → length (add_cleaned c out) ≤ length out + 1
unfolding add_cleaned
length-add_cleaned c out = ground (
  arith,
  length-append {0} out (c ∷ []),
  length-append {0} out ((c + 32) ∷ []),
  length-append {0} out (b'_' ∷ []),
)

clean-word : (cs out : Text) → all_word out ≡ true → all_word (clean cs out) ≡ true
unfolding clean
clean-word [] out h = h
clean-word (c ∷ cs) out h =
    ground (arith, add_cleaned-word c out, clean-word cs (add_cleaned c out))

length-clean : (cs out : Text) → length out < 32 → length (clean cs out) ≤ 32
unfolding clean
length-clean [] out h = omega arith
length-clean (c ∷ cs) out h =
    ground (arith, length-add_cleaned c out, length-clean cs (add_cleaned c out))

trim_front-word : (cs : Text) → all_word cs ≡ true → all_word (trim_front cs) ≡ true
unfolding trim_front all_word
trim_front-word [] h = h
trim_front-word (c ∷ cs) h = ground (arith, trim_front-word cs)

trim_back-word : (cs : Text) → all_word cs ≡ true → all_word (trim_back cs) ≡ true
unfolding trim_back all_word
trim_back-word [] h = h
trim_back-word (c ∷ cs) h = ground (arith, trim_back-word cs)

length-trim_front : (cs : Text) → length (trim_front cs) ≤ length cs
unfolding trim_front
length-trim_front [] = omega arith
length-trim_front (c ∷ cs) = ground (arith, length-trim_front cs)

length-trim_back : (cs : Text) → length (trim_back cs) ≤ length cs
unfolding trim_back
length-trim_back [] = omega arith
length-trim_back (c ∷ cs) = ground (arith, length-trim_back cs)

sanitized-word : (email : Text) → all_word (sanitized email) ≡ true
unfolding sanitized trim_underscores all_word
sanitized-word email =
    trim_back-word (trim_front (clean (local_part email) []))
      (trim_front-word (clean (local_part email) []) (clean-word (local_part email) [] refl))

length-sanitized : (email : Text) → length (sanitized email) ≤ 32
unfolding sanitized trim_underscores
length-sanitized email = omega (
  arith,
  length-trim_back (trim_front (clean (local_part email) [])),
  length-trim_front (clean (local_part email) []),
  length-clean (local_part email) [],
)

abbrev pub starts_lower : Text → Bool
starts_lower [] = false
starts_lower (c ∷ cs) = is_lower c

with_letter-username :
    (local cs : Text)
    → all_word cs ≡ true
    → length cs ≤ 32
    → 3 ≤ length cs
    → is_username (with_letter local cs) ≡ (starts_lower cs || ltb (length cs) 32)
unfolding with_letter is_username all_word
with_letter-username local [] w short long = elim long [ ]
with_letter-username local (c ∷ cs) w short long = ground arith

-- When at least three characters of the email's local part are left after cleaning, the derived
-- username passes the check of usernames exactly if what is left starts with a letter or has less
-- than 32 characters: else the letter put in front makes it 33 characters long.
pub derived_name_accepted :
    (email : Text)
    → 3 ≤ length (sanitized email)
    → is_username (derive_username email)
      ≡ (starts_lower (sanitized email) || ltb (length (sanitized email)) 32)
unfolding derive_username
derived_name_accepted [] h = ground (arith, length-sanitized [])
derived_name_accepted (c ∷ cs) h =
    with_letter-username (local_part (c ∷ cs)) (sanitized (c ∷ cs)) (sanitized-word (c ∷ cs))
      (length-sanitized (c ∷ cs)) h
