-- ===== src/Users/Paging.antt =====
-- The pages of ListUsers.
use mathlib.Core.List.{Memᴰ}
use vibe_sync.Base.{
  ℕ, zero, suc, ◌≡◌, ◌≢◌, refl, sym, ◌∙◌, subst, inl, inr, Bool, true, false, Bool-cases, String,
  eq_iff, ltb_ℤ, List, [], ◌∷◌, select, All, All-imp, arith,
}
use vibe_sync.Users.Profiles.{
  Profile, Rules, take, place, newest_first, page_size, wanted, id_at, list,
}

abbrev pub Distinct : List Profile → Type 0
Distinct [] = Unit
Distinct (u ∷ us) = All (λ (v : Profile). v.id ≢ u.id) us × Distinct us

module _ (P : Profile → Type 0) where
  place-All : (u : Profile) (us : List Profile) → P u → All P us → All P (place u us)
  place-All u [] h g = (h, tt)
  place-All u (x ∷ xs) h g = elim (Bool-cases (ltb_ℤ u.created_at x.created_at)) [
    | inl t ↦ rw t (g.0, place-All u xs h g.1)
    | inr f ↦ rw f (h, g)
  ]

  newest_first-All : (us : List Profile) → All P us → All P (newest_first us)
  newest_first-All [] h = tt
  newest_first-All (u ∷ us) h = place-All u (newest_first us) h.0 (newest_first-All us h.1)

  take-All : (n : ℕ) (us : List Profile) → All P us → All P (take n us)
  take-All zero us h = tt
  take-All (suc n) [] h = tt
  take-All (suc n) (u ∷ us) h = (h.0, take-All n us h.1)

  select-All :
      (p : Profile → Bool) (us : List Profile)
      → All (λ (u : Profile). p u ≡ true → P u) us
      → All P (select p us)
  select-All p [] h = tt
  select-All p (u ∷ us) h = elim (Bool-cases (p u)) [
    | inl t ↦ rw t (h.0 t, select-All p us h.1)
    | inr f ↦ rw f (select-All p us h.1)
  ]

  -- A row stands at each place that has an id.
  id_at-All :
      (n : ℕ) (us : List Profile)
      → All P us
      → id_at n us ≢ ""
      → (r : Profile) × P r × (r.id ≡ id_at n us)
  id_at-All n [] h e = absurd (e refl)
  id_at-All zero (u ∷ us) h e = (u, h.0, refl)
  id_at-All (suc n) (u ∷ us) h e = id_at-All n us h.1 e

select-Distinct : (p : Profile → Bool) (us : List Profile) → Distinct us → Distinct (select p us)
select-Distinct p [] h = tt
select-Distinct p (u ∷ us) h = elim (Bool-cases (p u)) [
  | inl t ↦ rw t (
    select-All (λ (v : Profile). v.id ≢ u.id) p us (All-imp _ _ (λ v n e. n) us h.0),
    select-Distinct p us h.1,
  )
  | inr f ↦ rw f (select-Distinct p us h.1)
]

place-Distinct :
    (u : Profile) (us : List Profile)
    → All (λ (v : Profile). v.id ≢ u.id) us
    → Distinct us
    → Distinct (place u us)
place-Distinct u [] h d = (tt, tt)
place-Distinct u (x ∷ xs) h d = elim (Bool-cases (ltb_ℤ u.created_at x.created_at)) [
  | inl t ↦ rw t (
    place-All (λ (v : Profile). v.id ≢ x.id) u xs (λ e. h.0 (sym e)) d.0,
    place-Distinct u xs h.1 d.1,
  )
  | inr f ↦ rw f (h, d)
]

newest_first-Distinct : (us : List Profile) → Distinct us → Distinct (newest_first us)
newest_first-Distinct [] h = tt
newest_first-Distinct (u ∷ us) h =
    place-Distinct u (newest_first us) (newest_first-All (λ (v : Profile). v.id ≢ u.id) us h.0)
      (newest_first-Distinct us h.1)

take-Distinct : (n : ℕ) (us : List Profile) → Distinct us → Distinct (take n us)
take-Distinct zero us h = tt
take-Distinct (suc n) [] h = tt
take-Distinct (suc n) (u ∷ us) h =
    (take-All (λ (v : Profile). v.id ≢ u.id) n us h.0, take-Distinct n us h.1)

-- The rows before a place have other ids.
take-other :
    (n : ℕ) (us : List Profile)
    → Distinct us
    → id_at n us ≢ ""
    → All (λ (v : Profile). v.id ≢ id_at n us) (take n us)
take-other zero us h e = tt
take-other (suc n) [] h e = tt
take-other (suc n) (u ∷ us) h e =
    let (r, n', same) = id_at-All (λ (v : Profile). v.id ≢ u.id) n us h.0 e in
    (λ p. n' (same ∙ sym p), take-other n us h.1 e)

mem-each : (us : List Profile) → All (λ (u : Profile). Memᴰ u us) us
mem-each [] = tt
mem-each (u ∷ us) = (Memᴰ.head refl, All-imp _ _ (λ v m. Memᴰ.tail m) us (mem-each us))

after-other :
    (rules : Rules) (next : String) (found : Profile → Bool)
    → ((id : String) → rules.less id id ≡ false)
    → next ≢ ""
    → (table : List Profile)
    → All (λ (v : Profile). wanted rules next found v ≡ true → v.id ≢ next) table
after-other rules next found irr more [] = tt
after-other rules next found irr more (u ∷ us) = (
  λ w e.
      let lt : rules.less u.id next ≡ false =
        subst (λ x. rules.less x next ≡ false) (sym e) (irr next) in
      ground (arith, w, lt, eq_iff next ""),
  after-other rules next found irr more us,
)

-- If a page has a next cursor, the user with that id fits the search, but stands neither on this
-- page nor on the page that is asked for with the cursor, whatever size and search are asked for
-- with it. Ids are distinct, and no id is less than itself.
pub page_skips :
    (rules : Rules) (cursor : String) (limit : ℕ) (found : Profile → Bool) (table : List Profile)
    (limit' : ℕ) (found' : Profile → Bool)
    → ((id : String) → rules.less id id ≡ false)
    → Distinct table
    → (list rules cursor limit found table).1 ≢ ""
    → let (first, next) = list rules cursor limit found table in
      ((r : Profile) × Memᴰ r table × (found r ≡ true) × (r.id ≡ next))
      × All (λ (v : Profile). v.id ≢ next) first
      × All (λ (v : Profile). v.id ≢ next) (list rules next limit' found' table).0
unfolding list
page_skips rules cursor limit found table limit' found' irr d more =
    let size = page_size limit in
    let sorted = newest_first (select (wanted rules cursor found) table) in
    let rows = take (suc size) sorted in
    let next = id_at size rows in
    let InTable = λ (r : Profile). Memᴰ r table × (found r ≡ true) in
    let here = take-All InTable (suc size) sorted (
      newest_first-All InTable _ (
        select-All InTable _ table
          (All-imp _ _ (λ r m e. (m, ground arith)) table (mem-each table)))) in
    let (r, known, same) = id_at-All InTable size rows here more in
    let apart =
      take-Distinct (suc size) sorted (newest_first-Distinct _ (select-Distinct _ table d)) in
    let Other = λ (v : Profile). v.id ≢ next in
    (
      (r, known.0, known.1, same),
      take-other size rows apart more,
      take-All Other (page_size limit') _ (
          take-All Other (suc (page_size limit')) _ (
            newest_first-All Other _ (
              select-All Other (wanted rules next found') table
                (after-other rules next found' irr more table)))),
    )
