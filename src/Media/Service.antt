-- ===== src/Media/Service.antt =====
-- apps/media-service: internal/domain/media.go, and the requests of internal/app/handlers.go, each
-- in its transaction. The answer of the room service about a permission is an argument, `none` for
-- a call that fails.
use vibe_sync.Base.{
  ℕ, Bool, true, false, not, ◌||◌, ◌==◌, Option, none, some, String, str_eq, ℤ, pos, negsuc, ltb_ℤ,
  ltb, wrap8, List, [], ◌∷◌, lookup, insert, is_some, if◌then◌else◌,
}
use vibe_sync.RoomService.Model.{Name, trim_space}
use vibe_sync.RoomService.Lifecycle.{Subject}
use vibe_sync.Media.Queue.{
  QueueItem, add, list, max_position, Removal, removed, not_found, key_violation, out_of_range,
  remove,
}

pub record Media : Type 0 where
  pub id : String
  pub kind : ℤ  -- int8
  pub source : ℤ  -- int8
  pub external_ref : Name
  pub title : Name
  pub artist : Name
  pub duration_ms : ℤ
  pub cover_url : Name
  pub created_at : ℤ

pub record NewMediaParams : Type 0 where
  pub kind : ℤ
  pub source : ℤ
  pub external_ref : Name
  pub title : Name
  pub artist : Name
  pub duration_ms : ℤ
  pub cover_url : Name

-- A kind or source of zero becomes the first one.
abbrev or_one : ℤ → ℤ
or_one (pos n) = if n == 0 then pos 1 else pos n
or_one (negsuc n) = negsuc n

abbrev is_empty : Name → Bool
is_empty [] = true
is_empty (c ∷ cs) = false

-- `none` is ErrMediaTitleEmpty.
unfoldable pub new_media : ℤ → String → NewMediaParams → Option Media
new_media now id p =
    let title = trim_space p.title in
    if is_empty title
    then none
    else some (record {
      id = id;
      kind = or_one p.kind;
      source = or_one p.source;
      external_ref = trim_space p.external_ref;
      title = title;
      artist = trim_space p.artist;
      duration_ms = p.duration_ms;
      cover_url = trim_space p.cover_url;
      created_at = now;
    })

pub record MediaDb : Type 0 where
  pub media : List (String × Media)
  pub queue : List QueueItem

pub data MediaError : Type 0 where
  permission_denied missing_id missing_user_id check_failed invalid_media : MediaError
  create_failed no_media add_failed no_item remove_failed : MediaError

pub data Result {ℓ} (A : Type ℓ) : Type ℓ where
  ok : A → Result A
  err : MediaError → Result A

-- SYSTEM_ROLE_USER
abbrev pub is_user : Subject → Bool
is_user s = not (ltb_ℤ s.system_role (pos 2))

-- The kind and the source of the request are any int32.
unfoldable pub create_media :
    Subject → ℤ → String → NewMediaParams → MediaDb → Result Media × MediaDb
create_media s now id p db =
    if is_user s
    then elim (new_media now id (record p { kind = wrap8 p.kind; source = wrap8 p.source })) [
      | none ↦ (err invalid_media, db)
      | some m ↦
          if is_some (lookup id db.media)
          then (err create_failed, db)
          else (ok m, record db { media = insert id m db.media })
    ]
    else (err permission_denied, db)

unfoldable pub get_media : String → MediaDb → Result Media
get_media id db = elim (lookup id db.media) [ none ↦ err no_media | some m ↦ ok m ]

-- `requireQueuePermission`; `none` is no error.
unfoldable pub require_queue_permission : String → Option Bool → Option MediaError
require_queue_permission user none =
    if str_eq user "" then some missing_user_id else some check_failed
require_queue_permission user (some allowed) =
    if str_eq user ""
    then some missing_user_id
    else if allowed
    then none
    else some permission_denied

-- The transaction of AddToQueue. The table holds no position beyond the column's type.
unfoldable pub add_body : String → String → ℤ → MediaDb → Result QueueItem × MediaDb
add_body room media now db =
    let (item, rows) = add room media now db.queue in
    if is_some (lookup media db.media)
    then (if ltb max_position item.position
        then (err add_failed, db)
        else (ok item, record db { queue = rows }))
    else (err no_media, db)

unfoldable pub add_to_queue :
    Subject → String → String → Option Bool → ℤ → MediaDb → Result QueueItem × MediaDb
add_to_queue s room media has now db =
    if is_user s
    then (if str_eq room "" || str_eq media ""
        then (err missing_id, db)
        else elim (require_queue_permission s.user_id has) [
          | some e ↦ (err e, db)
          | none ↦ add_body room media now db
        ])
    else (err permission_denied, db)

unfoldable pub removal_reply : Removal → MediaDb → Result Bool × MediaDb
removal_reply (removed rows) db = (ok true, record db { queue = rows })
removal_reply not_found db = (err no_item, db)
removal_reply key_violation db = (err remove_failed, db)
removal_reply out_of_range db = (err remove_failed, db)

-- With the order in which the renumbering visits the rows.
unfoldable pub remove_from_queue :
    Subject → String → ℕ → List ℕ → Option Bool → MediaDb → Result Bool × MediaDb
remove_from_queue s room position order has db =
    if is_user s
    then elim (require_queue_permission s.user_id has) [
      | some e ↦ (err e, db)
      | none ↦ removal_reply (remove order room position db.queue) db
    ]
    else (err permission_denied, db)

unfoldable pub get_queue : String → MediaDb → List QueueItem
get_queue room db = list room db.queue
