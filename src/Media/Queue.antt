-- ===== src/Media/Queue.antt =====
-- apps/media-service/internal/infra/postgres/queue_repo.go: the table media_queue.
use vibe_sync.Base.{
  ℕ, suc, ◌-◌, ◌==◌, ltb, Bool, true, false, not, ◌&&◌, ◌||◌, Option, none, some, String, str_eq, ℤ,
  List, [], ◌∷◌, ◌++◌, if◌then◌else◌,
}

pub record QueueItem : Type 0 where
  pub room_id : String
  pub position : ℕ
  pub media_id : String
  pub added_at : ℤ

abbrev pub larger : ℕ → ℕ → ℕ
larger a b = if ltb a b then b else a

-- COALESCE(MAX(position), -1) + 1
unfoldable pub next_position : String → List QueueItem → ℕ
next_position room [] = 0
next_position room (r ∷ rs) =
    let rest = next_position room rs in
    if str_eq r.room_id room then larger (suc r.position) rest else rest

unfoldable pub add : String → String → ℤ → List QueueItem → QueueItem × List QueueItem
add room media now rows =
    let item : QueueItem = record {
      room_id = room;
      position = next_position room rows;
      media_id = media;
      added_at = now;
    } in
    (item, rows ++ item ∷ [])

-- ORDER BY position
abbrev pub place : QueueItem → List QueueItem → List QueueItem
place r [] = r ∷ []
place r (x ∷ xs) =
    let rest = place r xs in if ltb x.position r.position then x ∷ rest else r ∷ x ∷ xs

unfoldable pub list : String → List QueueItem → List QueueItem
list room [] = []
list room (r ∷ rs) = let rest = list room rs in if str_eq r.room_id room then place r rest else rest

abbrev pub is_at : String → ℕ → QueueItem → Bool
is_at room p r = str_eq r.room_id room && r.position == p

abbrev pub taken : String → ℕ → List QueueItem → Bool
taken room p [] = false
taken room p (r ∷ rs) = is_at room p r || taken room p rs

-- DELETE: whether a row was there, and the rows that stay.
unfoldable pub delete_at : String → ℕ → List QueueItem → Bool × List QueueItem
delete_at room p [] = (false, [])
delete_at room p (r ∷ rs) =
    let (found, rest) = delete_at room p rs in
    if is_at room p r then (true, rest) else (found, r ∷ rest)

abbrev among : ℕ → List ℕ → Bool
among p [] = false
among p (q ∷ qs) = q == p || among p qs

-- UPDATE with the positions of the rows in the order in which it visits them, which Postgres leaves
-- open. The primary key is not deferrable and is checked at each row: a row cannot move onto a
-- position that is held by a row that has not moved yet.
unfoldable pub collides : String → ℕ → List ℕ → List ℕ → List QueueItem → Bool
collides room p moved [] rows = false
collides room p moved (q ∷ qs) rows =
    let rest = collides room p (q ∷ moved) qs rows in
    let held = taken room (q - 1) rows && not (among (q - 1) moved) in
    ((ltb p q && taken room q rows) && held) || rest

unfoldable pub shifted : String → ℕ → List QueueItem → List QueueItem
shifted room p [] = []
shifted room p (r ∷ rs) =
    (if str_eq r.room_id room && ltb p r.position
      then record r { position = r.position - 1 }
      else r)
    ∷ shifted room p rs

-- `none` is the violation of the key.
unfoldable pub renumber : List ℕ → String → ℕ → List QueueItem → Option (List QueueItem)
unfolding collides shifted
renumber order room p rows =
    if collides room p [] order rows then none else some (shifted room p rows)

-- The largest INTEGER.
abbrev pub max_position : ℕ
max_position = 2147483647

pub data Removal : Type 0 where
  removed : List QueueItem → Removal
  not_found : Removal
  key_violation out_of_range : Removal

unfoldable pub renumbered : Option (List QueueItem) → Removal
renumbered none = key_violation
renumbered (some rows) = removed rows

-- A position that the column cannot hold fails before the DELETE.
unfoldable pub remove : List ℕ → String → ℕ → List QueueItem → Removal
unfolding renumbered
remove order room p rows =
    let (found, rest) = delete_at room p rows in
    let after = renumbered (renumber order room p rest) in
    if ltb max_position p then out_of_range else if found then after else not_found
