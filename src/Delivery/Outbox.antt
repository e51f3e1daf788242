-- ===== src/Delivery/Outbox.antt =====
-- libs/outbox/outbox.go and infra/postgres/outbox_writer.go of the services: the table outbox.
use vibe_sync.Base.{
  ℕ, zero, suc, Bool, true, false, not, ◌&&◌, ◌||◌, Option, none, some, String, str_eq, ℤ, ltb_ℤ,
  List, [], ◌∷◌, ◌++◌, map, select, if◌then◌else◌,
}

-- An outbox event; `none` is the zero time. The column of the payload is JSONB: its text stands for
-- the JSON value, which Postgres may write with other spaces and another order of keys.
pub record OutboxEvent : Type 0 where
  pub id : String
  pub aggregate_id : String
  pub topic : String
  pub key : String
  pub payload : String
  pub headers : List (String × String)
  pub occurred_at : Option ℤ
  pub version : String

pub record OutboxRow : Type 0 where
  pub event : OutboxEvent
  pub published : Bool
  pub published_at : Option ℤ

abbrev pub has_id : String → List OutboxRow → Bool
has_id id [] = false
has_id id (r ∷ rs) = str_eq r.event.id id || has_id id rs

abbrev pub row_of : OutboxEvent → OutboxRow
row_of e = record {
  event = record e { key = if str_eq e.key "" then e.aggregate_id else e.key };
  published = false;
  published_at = none;
}

-- `none` is the error with which the caller rolls the transaction back: a missing topic, or an id
-- that the primary key refuses.
unfoldable pub append : List OutboxEvent → List OutboxRow → Option (List OutboxRow)
append [] rows = some rows
append (e ∷ es) rows =
    let rest = append es (rows ++ row_of e ∷ []) in
    if str_eq e.topic "" || has_id e.id rows then none else rest

-- ORDER BY occurred_at; the zero time comes first.
abbrev pub before : OutboxEvent → OutboxEvent → Bool
before a b = elim b.occurred_at [
  | none ↦ false
  | some t ↦ elim a.occurred_at [ none ↦ true | some s ↦ ltb_ℤ s t ]
]

abbrev pub place : OutboxEvent → List OutboxEvent → List OutboxEvent
place e [] = e ∷ []
place e (x ∷ xs) = let rest = place e xs in if before x e then x ∷ rest else e ∷ x ∷ xs

abbrev pub by_time : List OutboxEvent → List OutboxEvent
by_time [] = []
by_time (e ∷ es) = place e (by_time es)

abbrev pub limit : ℕ → List OutboxEvent → List OutboxEvent
limit zero es = []
limit (suc n) [] = []
limit (suc n) (e ∷ es) = e ∷ limit n es

-- Rows that wait and that no other transaction holds.
abbrev pub is_free : (String → Bool) → OutboxRow → Bool
is_free locked r = not r.published && not (locked r.event.id)

-- FOR UPDATE SKIP LOCKED: `locked` tells the rows that another transaction holds. Rows of one time
-- come in the order of the table, one of those that SQL allows.
unfoldable pub fetch_unpublished : ℕ → (String → Bool) → List OutboxRow → List OutboxEvent
fetch_unpublished n locked rows =
    limit n (by_time (map (λ (r : OutboxRow). r.event) (select (is_free locked) rows)))

abbrev pub mark_row : String → ℤ → OutboxRow → OutboxRow
mark_row id at r =
    if str_eq r.event.id id then record r { published = true; published_at = some at } else r

unfoldable pub mark_published : String → ℤ → List OutboxRow → List OutboxRow
mark_published id at [] = []
mark_published id at (r ∷ rs) = mark_row id at r ∷ mark_published id at rs
