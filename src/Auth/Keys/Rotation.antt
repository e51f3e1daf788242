-- ===== src/Auth/Keys/Rotation.antt =====
-- The table of keys over a rotation.
use vibe_sync.Base.{
  ◌+◌, ◌≤◌, ◌≡◌, refl, ◌∙◌, Bool, false, not, ◌&&◌, ◌||◌, Bool-cases, inl, inr, none, some, String,
  str_eq, eq_iff, List, [], ◌∷◌, ◌++◌, ℤ, ◌-ℤ◌, ltb_ℤ, arith,
}
use vibe_sync.Auth.KeyTable.{
  active, SigningKey, is_active, get_active, mark_retired, put_key, count_active, KeyResult, ok,
  upsert_key, rotate_found, rotate_table,
}

unfoldable pub has_kid : String → List SigningKey → Bool
has_kid kid [] = false
has_kid kid (k ∷ ks) = str_eq k.kid kid || has_kid kid ks

put_key-append :
    (k : SigningKey) (ks : List SigningKey) → has_kid k.kid ks ≡ false → put_key k ks ≡ ks ++ k ∷ []
unfolding put_key has_kid
put_key-append k [] h = refl
put_key-append k (o ∷ os) h = ground (arith, put_key-append k os)

has_kid-mark_retired :
    (kid j : String) (at : ℤ) (ks : List SigningKey)
    → has_kid kid (mark_retired j at ks) ≡ has_kid kid ks
unfolding has_kid mark_retired
has_kid-mark_retired kid j at [] = refl
has_kid-mark_retired kid j at (k ∷ ks) = ground (arith, has_kid-mark_retired kid j at ks)

count_active-mark_retired :
    (kid : String) (at : ℤ) (ks : List SigningKey)
    → count_active (mark_retired kid at ks) ≤ count_active ks
unfolding count_active mark_retired
count_active-mark_retired kid at [] = omega arith
count_active-mark_retired kid at (k ∷ ks) = ground (arith, count_active-mark_retired kid at ks)

none_active : (ks : List SigningKey) → get_active ks ≡ none → count_active ks ≡ 0
unfolding count_active get_active
none_active [] h = refl
none_active (k ∷ ks) h = ground (arith, none_active ks)

active_retired :
    (ks : List SigningKey) (prev : SigningKey) (at : ℤ)
    → get_active ks ≡ some prev
    → count_active ks ≤ 1
    → count_active (mark_retired prev.kid at ks) ≡ 0
unfolding count_active get_active mark_retired
active_retired [] prev at h n = absurd (ground (arith, h))
active_retired (k ∷ ks) prev at h n = elim (Bool-cases (is_active k.status)) [
  | inl live ↦
      ground (arith, live, h, eq_iff k.kid prev.kid, count_active-mark_retired prev.kid at ks)
  | inr other ↦ ground (arith, other, h, active_retired ks prev at)
]

count_active-append :
    (ks : List SigningKey) (k : SigningKey)
    → k.status ≡ active
    → count_active (ks ++ k ∷ []) ≡ count_active ks + 1
unfolding count_active
count_active-append [] k h = ground (arith, h)
count_active-append (o ∷ os) k h = ground (arith, count_active-append os k h)

get_active-append :
    (ks : List SigningKey) (k : SigningKey)
    → k.status ≡ active
    → count_active ks ≡ 0
    → get_active (ks ++ k ∷ []) ≡ some k
unfolding get_active count_active
get_active-append [] k h n = ground (arith, h)
get_active-append (o ∷ os) k h n = ground (arith, get_active-append os k h)

upsert_key-append :
    (k : SigningKey) (ks : List SigningKey)
    → k.status ≡ active
    → has_kid k.kid ks ≡ false
    → count_active ks ≡ 0
    → upsert_key k ks ≡ ok (ks ++ k ∷ [])
unfolding upsert_key
upsert_key-append k ks h new n = ground (arith, put_key-append k ks new, count_active-append ks k h)

abbrev Rotated : List SigningKey → SigningKey → KeyResult (List SigningKey) → Type 0
Rotated kept fresh r =
    (r ≡ ok (kept ++ fresh ∷ []))
    × (get_active (kept ++ fresh ∷ []) ≡ some fresh)
    × (count_active (kept ++ fresh ∷ []) ≡ 1)

appended :
    (kept : List SigningKey) (fresh : SigningKey)
    → fresh.status ≡ active
    → has_kid fresh.kid kept ≡ false
    → count_active kept ≡ 0
    → Rotated kept fresh (upsert_key fresh kept)
appended kept fresh live new n = (
  upsert_key-append fresh kept live new n,
  get_active-append kept fresh live n,
  count_active-append kept fresh live ∙ ground (arith, n),
)

-- From a table with at most one active key, a rotation to a new key that is forced or comes no
-- sooner than the interval after the creation of the active key succeeds: the index of active keys
-- does not refuse it, the previous active key is the row that is marked retired, the new key is
-- added as the only active one.
pub rotation_succeeds :
    (force : Bool) (now interval : ℤ) (fresh : SigningKey) (keys : List SigningKey)
    → fresh.status ≡ active
    → has_kid fresh.kid keys ≡ false
    → count_active keys ≤ 1
    → (prev : SigningKey) → get_active keys ≡ some prev
    → (not force && ltb_ℤ (now -ℤ prev.created_at) interval) ≡ false
    → (rotate_table force now interval fresh keys
        ≡ ok (mark_retired prev.kid now keys ++ fresh ∷ []))
      × (get_active (mark_retired prev.kid now keys ++ fresh ∷ []) ≡ some fresh)
      × (count_active (mark_retired prev.kid now keys ++ fresh ∷ []) ≡ 1)
unfolding rotate_table rotate_found
rotation_succeeds force now interval fresh keys live new single prev found due =
    rw (found, due)
      (appended (mark_retired prev.kid now keys) fresh live
        (has_kid-mark_retired fresh.kid prev.kid now keys ∙ new)
        (active_retired keys prev now found single))
