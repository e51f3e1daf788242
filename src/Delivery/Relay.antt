-- ===== src/Delivery/Relay.antt =====
-- infra/events of the services: Publisher, PendingPublisher, and Relay with its leader election.
use vibe_sync.Base.{
  ℕ, ◌==◌, Bool, true, false, Option, none, some, String, str_eq, ℤ, List, [], ◌∷◌, ◌++◌, length,
  insert, if◌then◌else◌,
}
use vibe_sync.Delivery.Outbox.{OutboxEvent, OutboxRow, append, fetch_unpublished, mark_published}

-- libs/kafka/kafka.go: Message, without the place in the topic that the broker gives it.
pub record Message : Type 0 where
  pub topic : String
  pub key : String
  pub value : String
  pub headers : List (String × String)
  pub timestamp : ℤ

abbrev pub or_now : Option ℤ → ℤ → ℤ
or_now none now = now
or_now (some t) now = t

abbrev pub put_all : List (String × String) → List (String × String) → List (String × String)
put_all [] h = h
put_all ((k, v) ∷ rest) h = put_all rest (insert k v h)

unfoldable pub event_headers : OutboxEvent → List (String × String)
event_headers e =
    put_all e.headers
      (("schema-version", e.version) ∷ ("event-id", e.id) ∷ ("aggregate-id", e.aggregate_id) ∷ [])

-- `Publish`, up to the call of the broker; `now` is read for an event without a time.
unfoldable pub message_of : ℤ → OutboxEvent → Message
message_of now e = record {
  topic = e.topic;
  key = if str_eq e.key "" then e.aggregate_id else e.key;
  value = e.payload;
  headers = event_headers e;
  timestamp = or_now e.occurred_at now;
}

-- How a call of another process ends. After `unsure` it has taken effect, but the caller sees an
-- error.
pub data Outcome : Type 0 where
  done unsure failed : Outcome

-- What a poll meets: the lock, the database, the broker and the clock. `marks` tells whether the
-- update of a row succeeds.
pub record Poll : Type 0 where
  pub leads : Bool
  pub begins : Bool
  pub fetches : Bool
  pub locked : String → Bool
  pub sends : Message → Outcome
  pub clock : String → ℤ
  pub marks : String → Bool
  pub marked_at : String → ℤ
  pub commits : Outcome

-- The table, and what the broker holds, oldest message first.
pub record Pipe : Type 0 where
  pub rows : List OutboxRow
  pub log : List Message

-- How the loop goes on after a message: `rest` is what the other rows of the batch give.
abbrev pub proceed :
    Outcome
    → Bool
    → Option (List OutboxRow) × List Message
    → List Message
    → List Message
    → Option (List OutboxRow) × List Message
proceed done true rest written log = rest
proceed done false rest written log = (none, written)
proceed unsure marks rest written log = (none, written)
proceed failed marks rest written log = (none, log)

-- The loop over a batch; `none` is an error, after which the transaction is rolled back. What has
-- reached the broker stays there.
unfoldable pub send_all :
    Poll → List OutboxEvent → List OutboxRow → List Message → Option (List OutboxRow) × List Message
send_all p [] rows log = (some rows, log)
send_all p (e ∷ es) rows log =
    let m = message_of (p.clock e.id) e in
    let rest = send_all p es (mark_published e.id (p.marked_at e.id) rows) (log ++ m ∷ []) in
    proceed (p.sends m) (p.marks e.id) rest (log ++ m ∷ []) log

abbrev pub commit : Outcome → ℕ → Pipe → Pipe → ℕ × Pipe
commit done n after before = (n, after)
commit unsure n after before = (0, after)
commit failed n after before = (0, before)

abbrev pub close : Outcome → ℕ → List OutboxRow → Option (List OutboxRow) × List Message → ℕ × Pipe
close c n rows (none, log) = (0, record { rows = rows; log = log })
close c n rows (some marked, log) =
    commit c n (record { rows = marked; log = log }) (record { rows = rows; log = log })

unfoldable pub drain_once : Poll → ℕ → Pipe → ℕ × Pipe
drain_once p batch s =
    let pending = fetch_unpublished batch p.locked s.rows in
    let closed = close p.commits (length pending) s.rows (send_all p pending s.rows s.log) in
    if p.begins
    then (if p.fetches then (if length pending == 0 then (0, s) else closed) else (0, s))
    else (0, s)

-- One round of `Run`: whether it sleeps before the next one, and the state.
unfoldable pub poll : ℕ → Poll → Pipe → Bool × Pipe
poll batch p s =
    let (n, after) = drain_once p batch s in if p.leads then (n == 0, after) else (true, s)

abbrev pub or_keep : Pipe → Option (List OutboxRow) → Pipe
or_keep s none = s
or_keep s (some rows) = record s { rows = rows }

-- `Append` in the transaction of a request, which is rolled back on an error.
unfoldable pub stage : List OutboxEvent → Pipe → Pipe
stage es s = or_keep s (append es s.rows)

-- What happens to the outbox of a service.
pub data RelayStep : Type 0 where
  staged : List OutboxEvent → RelayStep
  polled : ℕ → Poll → RelayStep

unfoldable pub relay_step : RelayStep → Pipe → Pipe
relay_step (staged es) s = stage es s
relay_step (polled batch p) s = (poll batch p s).1

unfoldable pub relay_run : List RelayStep → Pipe → Pipe
relay_run [] s = s
relay_run (x ∷ xs) s = relay_run xs (relay_step x s)
