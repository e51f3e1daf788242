-- ===== src/Delivery/Rows.antt =====
-- The rows of the outbox: their ids are distinct, and a batch consists of rows of the table.
use vibe_sync.Base.{
  ℕ, zero, suc, ◌≡◌, ◌≢◌, refl, sym, subst, Option, ◌||◌, Bool, true, false, Bool-cases, inl, inr,
  some, none, String, str_eq, eq_iff, ℤ, List, [], ◌∷◌, ◌++◌, map, select, All, All-imp, All-append,
  arith,
}
use vibe_sync.Delivery.Outbox.{
  OutboxEvent, OutboxRow, has_id, row_of, append, before, place, by_time, limit, is_free,
  fetch_unpublished, mark_row, mark_published,
}

abbrev pub Distinct : List OutboxRow → Type 0
Distinct [] = Unit
Distinct (r ∷ rs) = All (λ (q : OutboxRow). q.event.id ≢ r.event.id) rs × Distinct rs

-- A row of the table with this event's id holds this event.
abbrev pub Agrees : List OutboxRow → OutboxEvent → Type 0
Agrees rows e = All (λ (q : OutboxRow). q.event.id ≡ e.id → q.event ≡ e) rows

has_id-All :
    (id : String) (rows : List OutboxRow)
    → has_id id rows ≡ false
    → All (λ (q : OutboxRow). q.event.id ≢ id) rows
has_id-All id [] h = tt
has_id-All id (r ∷ rs) h = (ground (arith, eq_iff r.event.id id), has_id-All id rs (ground arith))

snoc-Distinct :
    (rows : List OutboxRow) (r : OutboxRow)
    → Distinct rows
    → All (λ (q : OutboxRow). q.event.id ≢ r.event.id) rows
    → Distinct (rows ++ r ∷ [])
snoc-Distinct [] r h g = (tt, tt)
snoc-Distinct (q ∷ rows) r h g = (
  All-append (λ (x : OutboxRow). x.event.id ≢ q.event.id) rows (r ∷ []) h.0 (λ e. g.0 (sym e), tt),
  snoc-Distinct rows r h.1 g.1,
)

abbrev pub OnSome : (List OutboxRow → Type 0) → Option (List OutboxRow) → Type 0
OnSome P none = Unit
OnSome P (some rows) = P rows

-- What holds of the table and is kept by a new row with a new id, holds after an append.
pub append-keeps :
    (P : List OutboxRow → Type 0)
    → ((e : OutboxEvent) (rows : List OutboxRow)
        → All (λ (q : OutboxRow). q.event.id ≢ e.id) rows
        → P rows
        → P (rows ++ row_of e ∷ []))
    → (es : List OutboxEvent) (rows : List OutboxRow) → P rows
    → OnSome P (append es rows)
unfolding append
append-keeps P grow [] rows h = h
append-keeps P grow (e ∷ es) rows h = elim (Bool-cases (str_eq e.topic "" || has_id e.id rows)) [
  | inl t ↦ rw t tt
  | inr f ↦ rw f (
      append-keeps P grow es (rows ++ row_of e ∷ [])
        (grow e rows (has_id-All e.id rows (ground arith)) h))
]

pub snoc_row-Distinct :
    (e : OutboxEvent) (rows : List OutboxRow)
    → All (λ (q : OutboxRow). q.event.id ≢ e.id) rows
    → Distinct rows
    → Distinct (rows ++ row_of e ∷ [])
snoc_row-Distinct e rows h d = snoc-Distinct rows (row_of e) d h

abbrev pub events : List OutboxRow → List OutboxEvent
events [] = []
events (r ∷ rs) = r.event ∷ events rs

mark_row-event : (id : String) (at : ℤ) (r : OutboxRow) → (mark_row id at r).event ≡ r.event
mark_row-event id at r = ground arith

pub events-mark :
    (id : String) (at : ℤ) (rows : List OutboxRow)
    → events (mark_published id at rows) ≡ events rows
unfolding mark_published
events-mark id at [] = refl
events-mark id at (r ∷ rs) = rw (mark_row-event id at r, events-mark id at rs) refl

-- Marking leaves the events as they are.
pub All-mark :
    (P : OutboxEvent → Type 0) (id : String) (at : ℤ) (rows : List OutboxRow)
    → All (λ (r : OutboxRow). P r.event) rows
    → All (λ (r : OutboxRow). P r.event) (mark_published id at rows)
unfolding mark_published
All-mark P id at [] h = tt
All-mark P id at (r ∷ rs) h = (subst P (sym (mark_row-event id at r)) h.0, All-mark P id at rs h.1)

pub mark-Distinct :
    (id : String) (at : ℤ) (rows : List OutboxRow)
    → Distinct rows
    → Distinct (mark_published id at rows)
unfolding mark_published
mark-Distinct id at [] h = tt
mark-Distinct id at (r ∷ rs) h = (
  subst (λ (e : OutboxEvent). All (λ (q : OutboxRow). q.event.id ≢ e.id) (mark_published id at rs))
      (sym (mark_row-event id at r))
      (All-mark (λ (e : OutboxEvent). e.id ≢ r.event.id) id at rs h.0),
  mark-Distinct id at rs h.1,
)

rows-Agrees :
    (rows : List OutboxRow) → Distinct rows → All (λ (r : OutboxRow). Agrees rows r.event) rows
rows-Agrees [] h = tt
rows-Agrees (r ∷ rs) (apart, h) =
    ((λ e. refl, All-imp _ _ (λ q n e. absurd (n e)) rs apart), spread rs apart (rows-Agrees rs h))
  where
    spread :
        (xs : List OutboxRow)
        → All (λ (q : OutboxRow). q.event.id ≢ r.event.id) xs
        → All (λ (q : OutboxRow). Agrees rs q.event) xs
        → All (λ (q : OutboxRow). Agrees (r ∷ rs) q.event) xs
    spread [] a b = tt
    spread (x ∷ xs) a b = ((λ e. absurd (a.0 (sym e)), b.0), spread xs a.1 b.1)

module _ (P : OutboxEvent → Type 0) where
  place-All : (e : OutboxEvent) (es : List OutboxEvent) → P e → All P es → All P (place e es)
  place-All e [] h g = (h, tt)
  place-All e (x ∷ xs) h g = elim (Bool-cases (before x e)) [
    | inl t ↦ rw t (g.0, place-All e xs h g.1)
    | inr f ↦ rw f (h, g)
  ]

  by_time-All : (es : List OutboxEvent) → All P es → All P (by_time es)
  by_time-All [] h = tt
  by_time-All (e ∷ es) h = place-All e (by_time es) h.0 (by_time-All es h.1)

  limit-All : (n : ℕ) (es : List OutboxEvent) → All P es → All P (limit n es)
  limit-All zero es h = tt
  limit-All (suc n) [] h = tt
  limit-All (suc n) (e ∷ es) h = (h.0, limit-All n es h.1)

  free-All :
      (locked : String → Bool) (rows : List OutboxRow)
      → All (λ (r : OutboxRow). is_free locked r ≡ true → P r.event) rows
      → All P (map (λ (r : OutboxRow). r.event) (select (is_free locked) rows))
  free-All locked [] h = tt
  free-All locked (r ∷ rs) h = elim (Bool-cases (is_free locked r)) [
    | inl t ↦ rw t (h.0 t, free-All locked rs h.1)
    | inr f ↦ rw f (free-All locked rs h.1)
  ]

  -- What holds of the waiting rows holds of a batch.
  pub fetch-All :
      (n : ℕ) (locked : String → Bool) (rows : List OutboxRow)
      → All (λ (r : OutboxRow). is_free locked r ≡ true → P r.event) rows
      → All P (fetch_unpublished n locked rows)
  unfolding fetch_unpublished
  fetch-All n locked rows h = limit-All n _ (by_time-All _ (free-All locked rows h))

pub fetch-Agrees :
    (n : ℕ) (locked : String → Bool) (rows : List OutboxRow)
    → Distinct rows
    → All (Agrees rows) (fetch_unpublished n locked rows)
fetch-Agrees n locked rows h =
    fetch-All (Agrees rows) n locked rows (All-imp _ _ (λ r a e. a) rows (rows-Agrees rows h))
