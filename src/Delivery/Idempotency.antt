-- ===== src/Delivery/Idempotency.antt =====
-- libs/kafka: Handler, Middleware, Chain, IdempotencyMiddleware; and the loop of the consumers
-- (infra/events/consumer.go of the services).
use vibe_sync.Base.{
  ℕ, suc, Bool, true, false, ◌&&◌, Option, none, some, String, str_eq, ℤ, List, [], ◌∷◌, lookup,
  if◌then◌else◌,
}
use vibe_sync.Delivery.Relay.{Message}
use Prim.Native.String.{◌++◌ as str_append}

-- A handler over a state: whether it returns nil, and the state that it leaves.
abbrev pub Handler : Type 0 → Type 0
Handler T = Message → T → Bool × T

abbrev pub Middleware : Type 0 → Type 0
Middleware T = Handler T → Handler T

unfoldable pub chain : {T : Type 0} → List (Middleware T) → Middleware T
chain [] h = h
chain (m ∷ ms) h = m (chain ms h)

-- SetNX with its key, value and ttl: `none` is an error of the store.
pub record Kv (S : Type 0) : Type 0 where
  pub set_nx : String → String → ℤ → S → Option Bool × S

abbrev or_empty : Option String → String
or_empty none = ""
or_empty (some id) = id

unfoldable pub event_id : Message → String
event_id m = let id = or_empty (lookup "event-id" m.headers) in if str_eq id "" then m.key else id

abbrev pub idempotency_key : String → String → String
idempotency_key topic id = str_append "idem:" (str_append topic (str_append ":" id))

abbrev pub key_of : Message → String
key_of m = idempotency_key m.topic (event_id m)

-- `next` runs beside the store, which only the middleware uses.
abbrev pub beside : {S A : Type 0} → Handler A → Message → A → S → Bool × (S × A)
beside next m a s = let (ok, b) = next m a in (ok, (s, b))

-- What the answer of SetNX makes of a message.
abbrev pub answered : {S A : Type 0} → Handler A → Message → A → Option Bool × S → Bool × (S × A)
answered next m a (none, s) = beside next m a s
answered next m a (some false, s) = (true, (s, a))
answered next m a (some true, s) = beside next m a s

unfoldable pub idempotency_middleware : {S A : Type 0} → Kv S → ℤ → Handler A → Handler (S × A)
idempotency_middleware kv ttl next m (s, a) =
    let marked = answered next m a (kv.set_nx (key_of m) "1" ttl s) in
    if str_eq (event_id m) "" then beside next m a s else marked

-- A message at its place, and whether the commit of its offset succeeds.
pub record Fetched : Type 0 where
  pub offset : ℕ
  pub message : Message
  pub commits : Bool

-- The loop of `Run` over the messages that the reader hands out: the place from which the group
-- reads after a restart, and the state. An error of the handler is followed by the next fetch.
unfoldable pub consume : {T : Type 0} → Handler T → List Fetched → ℕ → T → ℕ × T
consume h [] at t = (at, t)
consume h (f ∷ fs) at t =
    let (ok, after) = h f.message t in
    consume h fs (if ok && f.commits then suc f.offset else at) after

-- The messages of a topic, redeliveries included, one after another.
unfoldable pub serve : {T : Type 0} → Handler T → List Message → T → T
serve h [] t = t
serve h (m ∷ ms) t = serve h ms (h m t).1
