-- ===== src/Examples/Queues.antt =====
-- Examples on the queues of rooms.
use vibe_sync.Media.Queues.{
  obeyed_all, stuck, QueueRequest, adds, removes, handle_all, Queues, Represents, spec_all,
  in_catalogue,
}
use vibe_sync.Media.Requests.{removal_answer, queue_refines, queue_replies}
use vibe_sync.Media.Service.{
  add_failed, Media, MediaDb, ok, err, no_media, missing_id, remove_from_queue, add_to_queue,
  get_queue,
}
use vibe_sync.Media.Queue.{max_position, QueueItem}
use vibe_sync.Base.{
  not, Bool-cases, inl, inr, ℕ, ◌≡◌, ◌||◌, refl, true, some, String, str_eq, pos, ltb, List, [],
  ◌∷◌, if◌then◌else◌,
}
use vibe_sync.Media.Dense.{own, IsDense, media_of}
use vibe_sync.RoomService.Lifecycle.{Subject}

abbrev ann : Subject
ann = record { user_id = "ann"; system_role = pos 2 }

abbrev song : String → Media
song id = record {
  id = id;
  kind = pos 1;
  source = pos 1;
  external_ref = [];
  title = 65 ∷ [];
  artist = [];
  duration_ms = pos 180000;
  cover_url = [];
  created_at = pos 1;
}

abbrev lounge : String
lounge = "lounge"

abbrev in_lounge : ℕ → String → QueueItem
in_lounge n media = record { room_id = "lounge"; position = n; media_id = media; added_at = pos 3 }

abbrev stock : MediaDb
stock = record {
  media = ("m1", song "m1") ∷ ("m2", song "m2") ∷ [];
  queue = in_lounge 0 "m1" ∷ in_lounge 1 "m2" ∷ [];
}

abbrev queues : Queues
queues room = media_of (own room stock.queue)

stock-Represents : Represents stock.queue queues
stock-Represents = record {
  dense = λ room. elim (Bool-cases (str_eq lounge room)) [
    | inl t ↦ rw t (refl, (refl, tt))
    | inr f ↦ rw f tt
  ];
  media = λ room. refl;
}

abbrev evening : List QueueRequest
evening =
    adds ann "lounge" "m1" (some true) (pos 9)
    ∷ removes ann "lounge" 0 (2 ∷ 1 ∷ []) (some true)
    ∷ removes ann "lounge" 0 (1 ∷ 2 ∷ []) (some true)
    ∷ removes ann "lounge" 7 [] (some true)
    ∷ []

queue_refines_example :
    let shown = get_queue lounge (handle_all evening stock) in
    IsDense 0 shown
    × (media_of shown
        ≡ spec_all (in_catalogue stock) (obeyed_all evening stock) evening queues lounge)
queue_refines_example = queue_refines evening stock queues lounge stock-Represents

queue_replies_example :
    let item : QueueItem = record {
      room_id = "lounge";
      position = 2;
      media_id = "m3";
      added_at = pos 9;
    } in
    ((remove_from_queue ann "lounge" 1 [] (some true) stock).0
      ≡ removal_answer 1 2 (stuck [] "lounge" 1 stock.queue))
    × ((add_to_queue ann "lounge" "m3" (some true) (pos 9) stock).0 ≡ (
        if str_eq lounge "" || str_eq "m3" ""
        then err missing_id
        else if not (in_catalogue stock "m3")
        then err no_media
        else if ltb max_position 2
        then err add_failed
        else ok item))
queue_replies_example =
    queue_replies ann "lounge" "m3" 1 [] (some true) (pos 9) stock queues stock-Represents refl
