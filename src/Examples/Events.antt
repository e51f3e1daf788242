-- ===== src/Examples/Events.antt =====
-- Examples on the outbox, the relay and the consumers.
use mathlib.Core.List.{Memᴰ}
use vibe_sync.Delivery.Rows.{events}
use vibe_sync.Base.{
  ◌≡◌, ◌≢◌, lookup, refl, true, false, some, String, ℤ, pos, List, [], ◌∷◌, All, arith, not, str_eq,
}
use vibe_sync.Examples.Data.{differ}
use vibe_sync.Delivery.Outbox.{OutboxEvent, OutboxRow, row_of}
use vibe_sync.Delivery.Relay.{
  Message, message_of, event_headers, done, unsure, Poll, Pipe, RelayStep, staged, polled,
  relay_run,
}
use vibe_sync.Delivery.Publishing.{IsSound, relay_run-IsSound}
use vibe_sync.Delivery.Draining.{IsHealthy, rounds, relay_drains}
use vibe_sync.Delivery.Idempotency.{
  Handler, Kv, event_id, key_of, idempotency_middleware, Fetched, serve,
}
use vibe_sync.Delivery.Once.{KvLaws, failed_once_dropped}
use vibe_sync.Delivery.Firsts.{elem}

abbrev event : String → OutboxEvent
event id = record {
  id = id;
  aggregate_id = "lounge";
  topic = "room.created.v1";
  key = "";
  payload = "{}";
  headers = [];
  occurred_at = some (pos 5);
  version = "v1";
}

abbrev healthy : Poll
healthy = record {
  leads = true;
  begins = true;
  fetches = true;
  locked = λ id. false;
  sends = λ m. done;
  clock = λ id. pos 7;
  marks = λ id. true;
  marked_at = λ id. pos 8;
  commits = done;
}

-- The broker takes the message, and the answer is lost.
abbrev shaky : Poll
shaky = record healthy { sends = λ m. unsure }

healthy-IsHealthy : IsHealthy healthy
healthy-IsHealthy = record {
  leads = refl;
  begins = refl;
  fetches = refl;
  free = λ id. refl;
  sends = λ m. refl;
  marks = λ id. refl;
  commits = refl;
}

abbrev empty_pipe : Pipe
empty_pipe = record { rows = []; log = [] }

abbrev day : List RelayStep
day = staged (event "e1" ∷ event "e2" ∷ []) ∷ polled 10 shaky ∷ polled 1 healthy ∷ []

relay_run-IsSound_example : IsSound (relay_run day empty_pipe)
relay_run-IsSound_example =
    relay_run-IsSound day empty_pipe (record { distinct = tt; sent = tt; known = tt })

abbrev two_rows : Pipe
two_rows = record { rows = row_of (event "e1") ∷ row_of (event "e2") ∷ []; log = [] }

two_rows-IsSound : IsSound two_rows
two_rows-IsSound = record {
  distinct = ((differ "e2" "e1" refl, tt), (tt, tt));
  sent = ((λ p. cc), ((λ p. cc), tt));
  known = tt;
}

relay_drains_example :
    let final = relay_run (rounds 1 (healthy ∷ healthy ∷ [])) two_rows in
    (events final.rows ≡ events two_rows.rows)
    × All (λ (r : OutboxRow). (at : ℤ) × Memᴰ (message_of at r.event) final.log) final.rows
relay_drains_example =
    relay_drains 1 (healthy ∷ healthy ∷ []) two_rows (omega arith) two_rows-IsSound
      (healthy-IsHealthy, (healthy-IsHealthy, tt)) (omega arith)

-- A store that keeps every key.
abbrev keys : Kv (List String)
keys = record { set_nx = λ k v ttl s. (some (not (elem k s)), k ∷ s) }

keys-KvLaws : KvLaws keys elem
keys-KvLaws = record {
  answers = λ k v ttl s b h. (ground (arith, h), λ j. refl);
  keeps = λ k v ttl s j h. ground (arith, h);
}

-- A handler that collects the keys of its messages, and fails on those of another topic.
abbrev collect : Handler (List String)
collect m seen = (str_eq m.topic "room.created.v1", key_of m ∷ seen)

abbrev created : Message
created = message_of (pos 7) (event "e1")

abbrev strange : Message
strange = record created { topic = "user.created.v1" }

strange_id : event_id strange ≢ ""
unfolding event_id message_of event_headers lookup
strange_id = differ "e1" "" refl

abbrev arrivals : List Message
arrivals = created ∷ strange ∷ created ∷ []

failed_once_dropped_example :
    let (first, st) = idempotency_middleware keys (pos 60) collect strange ([], []) in
    let later = serve (idempotency_middleware keys (pos 60) collect) (created ∷ []) st in
    let (again, after) = idempotency_middleware keys (pos 60) collect strange later in
    (first ≡ false) × (again ≡ true) × (after.1 ≡ later.1)
unfolding serve idempotency_middleware event_id lookup message_of event_headers
failed_once_dropped_example =
    failed_once_dropped keys elem (pos 60) collect strange (created ∷ []) [] [] false keys-KvLaws
      strange_id refl refl refl

abbrev bad : Fetched
bad = record { offset = 4; message = strange; commits = true }

abbrev good : Fetched
good = record { offset = 5; message = created; commits = true }
