-- ===== src/Auth/Refresh/Lookup.antt =====
-- Lemmas on the rows of the token table.
use vibe_sync.Base.{
  ◌≡◌, ap, inl, inr, Bool, true, Bool-cases, some, String, str_eq, List, [], ◌∷◌, ◌++◌, All, ℤ,
  arith, if◌then◌else◌,
}
use vibe_sync.Auth.Tokens.{Text, text_eq, RefreshToken, compromised, mark_compromised}
use vibe_sync.Auth.Store.{get_by_selector, update_where, in_family}

-- The update of rows keeps what it keeps of each row.
pub get-update :
    (s : Text) (p : RefreshToken → Bool) (f : RefreshToken → RefreshToken) (ts : List RefreshToken)
    (t : RefreshToken)
    → ((x : RefreshToken) → (f x).selector ≡ x.selector)
    → get_by_selector s ts ≡ some t
    → get_by_selector s (update_where p f ts) ≡ some (if p t then f t else t)
unfolding get_by_selector update_where
get-update s p f [] t keeps h = cc
get-update s p f (x ∷ xs) t keeps h = elim (Bool-cases (text_eq x.selector s)) [
  | inl e ↦
      let same : x ≡ t = ground arith in
      rw (kept, e) (ap {A = RefreshToken} (λ y. some (if p y then f y else y)) same)
  | inr e ↦ rw (kept, e) (get-update s p f xs t keeps (rw e at h))
]
  where
    kept : (if p x then f x else x).selector ≡ x.selector
    kept = elim (Bool-cases (p x)) [ inl y ↦ rw y (keeps x) | inr n ↦ rw n ]

pub get-append :
    (s : Text) (ts us : List RefreshToken) (t : RefreshToken)
    → get_by_selector s ts ≡ some t
    → get_by_selector s (ts ++ us) ≡ some t
unfolding get_by_selector
get-append s [] us t h = cc
get-append s (x ∷ xs) us t h = ground (arith, get-append s xs us t)

-- After a family-wide revocation each row of the family is compromised.
pub family_burned :
    (family : String) (at : ℤ) (ts : List RefreshToken)
    → All
        (λ t. str_eq t.family_id family ≡ true → t.status ≡ compromised)
        (update_where (in_family family) (mark_compromised at) ts)
unfolding update_where in_family mark_compromised
family_burned family at [] = tt
family_burned family at (t ∷ ts) = ((λ h. ground arith), family_burned family at ts)
