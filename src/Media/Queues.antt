-- ===== src/Media/Queues.antt =====
-- The requests on queues, and the queues as lists of media: what handlers.go does to them.
use vibe_sync.Media.Queue.{collides, delete_at, max_position, next_position}
use vibe_sync.Base.{ltb}
use vibe_sync.Base.{
  ℕ, ◌≡◌, Bool, false, not, ◌&&◌, Option, none, some, String, str_eq, ℤ, List, [], ◌∷◌, ◌++◌,
  lookup, is_some, if◌then◌else◌,
}
use vibe_sync.RoomService.Lifecycle.{Subject}
use vibe_sync.Media.Queue.{QueueItem}
use vibe_sync.Media.Service.{MediaDb, is_user, add_to_queue, remove_from_queue}
use vibe_sync.Media.Dense.{own, media_of, IsDense, has, drop_at}

pub data QueueRequest : Type 0 where
  adds : Subject → String → String → Option Bool → ℤ → QueueRequest
  removes : Subject → String → ℕ → List ℕ → Option Bool → QueueRequest

unfoldable pub handle : QueueRequest → MediaDb → MediaDb
handle (adds s room media has now) db = (add_to_queue s room media has now db).1
handle (removes s room position order has) db = (remove_from_queue s room position order has db).1

unfoldable pub handle_all : List QueueRequest → MediaDb → MediaDb
handle_all [] db = db
handle_all (q ∷ qs) db = handle_all qs (handle q db)

-- The renumbering after a removal fails.
abbrev pub stuck : List ℕ → String → ℕ → List QueueItem → Bool
stuck order room p rows = collides room p [] order (delete_at room p rows).1

-- The positions fit the column, and the renumbering visits the rows in an order that works.
abbrev pub obeyed : QueueRequest → MediaDb → Bool
obeyed (adds s room media has now) db = not (ltb max_position (next_position room db.queue))
obeyed (removes s room position order has) db =
    not (ltb max_position position) && not (stuck order room position db.queue)

abbrev pub obeyed_all : List QueueRequest → MediaDb → List Bool
obeyed_all [] db = []
obeyed_all (r ∷ rs) db = obeyed r db ∷ obeyed_all rs (handle r db)

-- A user whom the room service grants the permission.
abbrev pub allowed : Subject → Option Bool → Bool
allowed s none = false
allowed s (some granted) = is_user s && (not (str_eq s.user_id "") && granted)

-- The specification: a list of media for each room.
abbrev pub Queues : Type 0
Queues = String → List String

-- With the media that are known, and whether the request is obeyed.
abbrev pub spec : (String → Bool) → Bool → QueueRequest → Queues → Queues
spec known done (adds s room media has now) q other =
    if str_eq room other
      && (done
          && (allowed s has && (not (str_eq room "") && (not (str_eq media "") && known media))))
    then q other ++ media ∷ []
    else q other
spec known done (removes s room position order has) q other =
    if str_eq room other && (done && allowed s has) then drop_at position (q other) else q other

abbrev pub spec_all : (String → Bool) → List Bool → List QueueRequest → Queues → Queues
spec_all known (done ∷ ds) (r ∷ rs) q = spec_all known ds rs (spec known done r q)
spec_all known _ _ q = q

abbrev pub in_catalogue : MediaDb → String → Bool
in_catalogue db media = is_some (lookup media db.media)

-- The table holds these queues.
pub record Represents (rows : List QueueItem) (q : Queues) : Type 0 where
  pub dense : (room : String) → IsDense 0 (own room rows)
  pub media : (room : String) → media_of (own room rows) ≡ q room
