-- ===== src/Media/Requests.antt =====
-- What clients see of the queues (internal/app/handlers.go).
use vibe_sync.Media.Queue.{max_position, out_of_range}
use vibe_sync.Media.Queues.{stuck, obeyed, obeyed_all}
use vibe_sync.Media.Service.{Result, add_failed, remove_failed}
use vibe_sync.Base.{not}
use vibe_sync.Base.{
  ℕ, ltb, ◌≡◌, sym, ap, ◌∙◌, subst, Bool, true, Option, none, some, String, str_eq, ◌||◌, ℤ, List,
  [], ◌∷◌, length, lookup, is_some, arith, if◌then◌else◌,
}
use vibe_sync.RoomService.Lifecycle.{Subject}
use vibe_sync.Media.Queue.{
  QueueItem, add, next_position, Removal, removed, not_found, key_violation, remove,
}
use vibe_sync.Media.Service.{
  MediaDb, ok, err, no_item, missing_id, no_media, require_queue_permission, add_body, add_to_queue,
  removal_reply, remove_from_queue, get_queue,
}
use vibe_sync.Media.Dense.{
  own, media_of, IsDense, length-media_of, next_position-IsDense, list-IsDense,
}
use vibe_sync.Media.Refinement.{OnRemoval, remove-OnRemoval, step-Represents}
use vibe_sync.Media.Queues.{
  QueueRequest, handle, handle_all, allowed, Queues, spec, spec_all, in_catalogue, Represents,
}

run-Represents :
    (rs : List QueueRequest) (db : MediaDb) (q : Queues)
    → Represents db.queue q
    → Represents (handle_all rs db).queue (spec_all (in_catalogue db) (obeyed_all rs db) rs q)
unfolding handle_all
run-Represents [] db q h = h
run-Represents (r ∷ rs) db q h =
    let (after, same) = step-Represents r db q h in
    let known = ap (λ m. λ (media : String). is_some (lookup media m)) same in
    subst
      (λ k.
        Represents (handle_all rs (handle r db)).queue
          (spec_all k (obeyed_all rs (handle r db)) rs (spec (in_catalogue db) (obeyed r db) r q)))
      known (run-Represents rs (handle r db) (spec (in_catalogue db) (obeyed r db) r q) after)

-- After any requests, allowed or not, the queue that a client gets of a room is numbered 0, 1, 2,
-- ... without gaps, and its media are those of the specification, where each room has a list, an
-- allowed addition with both ids, of a medium of the catalogue, puts it at the end, an allowed
-- removal drops the entry at its position if there is one, and nothing else changes any list. Each
-- renumbering may visit the rows in any order: a request whose order of visits violates the key, or
-- whose position the column cannot hold, leaves every list as it is.
pub queue_refines :
    (rs : List QueueRequest) (db : MediaDb) (q : Queues) (room : String)
    → Represents db.queue q
    → let shown = get_queue room (handle_all rs db) in
      IsDense 0 shown × (media_of shown ≡ spec_all (in_catalogue db) (obeyed_all rs db) rs q room)
unfolding get_queue
queue_refines rs db q room h =
    let after = run-Represents rs db q h in
    let shown = list-IsDense room 0 (handle_all rs db).queue (after.dense room) in
    rw shown (after.dense room, after.media room)

-- What a removal is answered with.
abbrev pub removal_answer : ℕ → ℕ → Bool → Result Bool
removal_answer p len fails =
    if ltb max_position p
    then err remove_failed
    else if ltb p len
    then (if fails then err remove_failed else ok true)
    else err no_item

removal-answer :
    (room : String) (p : ℕ) (fails : Bool) (rm : Removal) (db : MediaDb) (q : Queues)
    → OnRemoval db.queue q room p fails rm
    → (removal_reply rm db).0 ≡ removal_answer p (length (q room)) fails
unfolding removal_reply
removal-answer room p fails (removed rows) db q (r, l, fits, good) = ground (arith, l, fits, good)
removal-answer room p fails not_found db q (l, fits) = ground (arith, l, fits)
removal-answer room p fails key_violation db q (l, fits, bad) = ground (arith, l, fits, bad)
removal-answer room p fails out_of_range db q wide = ground (arith, wide)

-- To a user who is allowed to, a removal at a position that fits the column replies with NotFound
-- exactly where the queue has no such position; elsewhere with success, or with Internal exactly if
-- the order in which the renumbering visits the rows moves a row onto one that has not moved. A
-- position that does not fit the column is an Internal error. An addition replies with the position
-- after the last one, if both ids are given, the medium is in the catalogue and the column holds
-- the position.
pub queue_replies :
    (s : Subject) (room media : String) (p : ℕ) (order : List ℕ) (has : Option Bool) (now : ℤ)
    (db : MediaDb) (q : Queues)
    → Represents db.queue q
    → allowed s has ≡ true
    → let item : QueueItem = record {
      room_id = room;
      position = length (q room);
      media_id = media;
      added_at = now;
    } in
      ((remove_from_queue s room p order has db).0
        ≡ removal_answer p (length (q room)) (stuck order room p db.queue))
      × ((add_to_queue s room media has now db).0 ≡ (
          if str_eq room "" || str_eq media ""
          then err missing_id
          else if not (in_catalogue db media)
          then err no_media
          else if ltb max_position (length (q room))
          then err add_failed
          else ok item))
unfolding remove_from_queue require_queue_permission add_to_queue add_body add
queue_replies s room media p order none now db q h a = cc
queue_replies s room media p order (some granted) now db q h a =
    let removal =
      removal-answer room p (stuck order room p db.queue) (remove order room p db.queue) db q
        (remove-OnRemoval order room p db.queue q h) in
    let last : next_position room db.queue ≡ length (q room) =
      next_position-IsDense room db.queue (h.dense room)
      ∙ sym (length-media_of (own room db.queue))
      ∙ ap length (h.media room) in
    (ground (arith, removal), ground (arith, last))
