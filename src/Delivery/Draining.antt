-- ===== src/Delivery/Draining.antt =====
-- While nothing fails, the relay empties the outbox.
use mathlib.Core.List.{Memᴰ}
use vibe_sync.Base.{
  ℕ, zero, suc, ◌≤◌, ◌<◌, ◌≡◌, refl, ap, ◌∙◌, ◌⊎◌, Bool, true, false, not, ◌&&◌, ◌||◌, Bool-cases,
  inl, inr, Option, some, String, str_eq, eq_refl, ℤ, List, [], ◌∷◌, ◌++◌, map, select, length, All,
  All-imp, arith, if◌then◌else◌,
}
use vibe_sync.Delivery.Outbox.{
  OutboxEvent, OutboxRow, place, by_time, limit, is_free, fetch_unpublished, mark_published,
}
use vibe_sync.Delivery.Relay.{
  Message, message_of, Outcome, done, proceed, Poll, Pipe, send_all, drain_once, poll, RelayStep,
  polled, relay_step, relay_run,
}
use vibe_sync.Delivery.Rows.{events, events-mark, fetch-All}
use vibe_sync.Delivery.Publishing.{IsSound, relay_run-IsSound}
use vibe_sync.Delivery.Sending.{Sent}

-- A poll in which nothing fails and no other relay holds a row.
pub record IsHealthy (p : Poll) : Type 0 where
  pub leads : p.leads ≡ true
  pub begins : p.begins ≡ true
  pub fetches : p.fetches ≡ true
  pub free : (id : String) → p.locked id ≡ false
  pub sends : (m : Message) → p.sends m ≡ done
  pub marks : (id : String) → p.marks id ≡ true
  pub commits : p.commits ≡ done

abbrev pub waiting : List OutboxRow → ℕ
waiting [] = 0
waiting (r ∷ rs) = if r.published then waiting rs else suc (waiting rs)

abbrev waits : String → List OutboxRow → Bool
waits id [] = false
waits id (r ∷ rs) = (str_eq r.event.id id && not r.published) || waits id rs

mark-waiting_le :
    (id : String) (at : ℤ) (rows : List OutboxRow)
    → waiting (mark_published id at rows) ≤ waiting rows
unfolding mark_published
mark-waiting_le id at [] = omega arith
mark-waiting_le id at (r ∷ rs) = ground (arith, mark-waiting_le id at rs)

mark-waiting_lt :
    (id : String) (at : ℤ) (rows : List OutboxRow)
    → waits id rows ≡ true
    → waiting (mark_published id at rows) < waiting rows
unfolding mark_published
mark-waiting_lt id at [] h = cc
mark-waiting_lt id at (r ∷ rs) h = elim (Bool-cases (waits id rs)) [
  | inl t ↦ ground (arith, mark-waiting_lt id at rs t)
  | inr f ↦ ground (arith, mark-waiting_le id at rs)
]

mark_all : Poll → List OutboxEvent → List OutboxRow → List OutboxRow
mark_all p [] rows = rows
mark_all p (e ∷ es) rows = mark_all p es (mark_published e.id (p.marked_at e.id) rows)

send_all-healthy :
    (p : Poll) (es : List OutboxEvent) (rows : List OutboxRow) (log : List Message)
    → IsHealthy p
    → (send_all p es rows log).0 ≡ some (mark_all p es rows)
unfolding send_all mark_all
send_all-healthy p [] rows log h = refl
send_all-healthy p (e ∷ es) rows log h =
    let m = message_of (p.clock e.id) e in
    go (p.sends m) (p.marks e.id) (h.sends m) (h.marks e.id) _ _ _
    ∙ send_all-healthy p es (mark_published e.id (p.marked_at e.id) rows) (log ++ m ∷ []) h
  where
    go :
        (o : Outcome) (b : Bool)
        → o ≡ done
        → b ≡ true
        → (rest : Option (List OutboxRow) × List Message) (w l : List Message)
        → (proceed o b rest w l).0 ≡ rest.0
    go o b e f rest w l = rw (e, f) refl

mark_all-waiting_le :
    (p : Poll) (es : List OutboxEvent) (rows : List OutboxRow)
    → waiting (mark_all p es rows) ≤ waiting rows
unfolding mark_all
mark_all-waiting_le p [] rows = omega arith
mark_all-waiting_le p (e ∷ es) rows = omega (
  arith,
  mark_all-waiting_le p es (mark_published e.id (p.marked_at e.id) rows),
  mark-waiting_le e.id (p.marked_at e.id) rows,
)

mark_all-events :
    (p : Poll) (es : List OutboxEvent) (rows : List OutboxRow)
    → events (mark_all p es rows) ≡ events rows
unfolding mark_all
mark_all-events p [] rows = refl
mark_all-events p (e ∷ es) rows =
    mark_all-events p es (mark_published e.id (p.marked_at e.id) rows)
    ∙ events-mark e.id (p.marked_at e.id) rows

waits-free :
    (locked : String → Bool) (rows : List OutboxRow)
    → All (λ (r : OutboxRow). is_free locked r ≡ true → waits r.event.id rows ≡ true) rows
waits-free locked [] = tt
waits-free locked (r ∷ rs) = (
  (λ e. ground (arith, eq_refl r.event.id)),
  All-imp _ _ (λ q h e. ground (arith, h e)) rs (waits-free locked rs),
)

length-place : (e : OutboxEvent) (es : List OutboxEvent) → length (place e es) ≡ suc (length es)
length-place e [] = refl
length-place e (x ∷ xs) = ground (arith, length-place e xs)

length-by_time : (es : List OutboxEvent) → length (by_time es) ≡ length es
length-by_time [] = refl
length-by_time (e ∷ es) = length-place e (by_time es) ∙ ap suc (length-by_time es)

length-free :
    (locked : String → Bool) (rows : List OutboxRow)
    → ((id : String) → locked id ≡ false)
    → length (map (λ (r : OutboxRow). r.event) (select (is_free locked) rows)) ≡ waiting rows
length-free locked [] h = refl
length-free locked (r ∷ rs) h = ground (arith, h r.event.id, length-free locked rs h)

length-limit : (n : ℕ) (es : List OutboxEvent) → length (limit (suc n) es) ≡ 0 → length es ≡ 0
length-limit n [] h = refl
length-limit n (e ∷ es) h = absurd (omega arith)

fetch-some :
    (batch : ℕ) (locked : String → Bool) (rows : List OutboxRow)
    → 0 < batch
    → ((id : String) → locked id ≡ false)
    → length (fetch_unpublished batch locked rows) ≡ 0
    → waiting rows ≡ 0
unfolding fetch_unpublished
fetch-some zero locked rows b h e = absurd (omega arith)
fetch-some (suc n) locked rows b h e =
    let found = map (λ (r : OutboxRow). r.event) (select (is_free locked) rows) in
    omega (arith, length-limit n (by_time found) e, length-by_time found, length-free locked rows h)

-- A batch of waiting rows that is not empty leaves fewer rows waiting.
mark_all-waiting :
    (p : Poll) (es : List OutboxEvent) (rows : List OutboxRow)
    → All (λ (e : OutboxEvent). waits e.id rows ≡ true) es
    → (length es ≡ 0) ⊎ (waiting (mark_all p es rows) < waiting rows)
unfolding mark_all
mark_all-waiting p [] rows h = inl refl
mark_all-waiting p (e ∷ es) rows h = inr (
    omega (
      arith,
      mark_all-waiting_le p es (mark_published e.id (p.marked_at e.id) rows),
      mark-waiting_lt e.id (p.marked_at e.id) rows h.0,
    ))

-- What a poll did for the rows.
abbrev Cleared : List OutboxRow → Pipe → Type 0
Cleared rows s =
    (events s.rows ≡ events rows)
    × (waiting s.rows ≤ waiting rows)
    × ((waiting rows ≡ 0) ⊎ (waiting s.rows < waiting rows))

poll-Cleared :
    (batch : ℕ) (p : Poll) (s : Pipe) → IsHealthy p → 0 < batch → Cleared s.rows (poll batch p s).1
unfolding poll drain_once
poll-Cleared batch p s h b =
    let pending = fetch_unpublished batch p.locked s.rows in
    let sent = send_all-healthy p pending s.rows s.log h in
    let waits_for =
      fetch-All (λ (e : OutboxEvent). waits e.id s.rows ≡ true) batch p.locked s.rows
        (waits-free p.locked s.rows) in
    ground (
      arith,
      h.leads,
      h.begins,
      h.fetches,
      h.commits,
      sent,
      mark_all-events p pending s.rows,
      mark_all-waiting_le p pending s.rows,
      mark_all-waiting p pending s.rows waits_for,
      fetch-some batch p.locked s.rows b h.free,
    )

abbrev pub rounds : ℕ → List Poll → List RelayStep
rounds batch [] = []
rounds batch (p ∷ ps) = polled batch p ∷ rounds batch ps

rounds-waiting :
    (batch : ℕ) (ps : List Poll) (s : Pipe)
    → 0 < batch
    → All IsHealthy ps
    → waiting s.rows ≤ length ps
    → let final = relay_run (rounds batch ps) s in
      (events final.rows ≡ events s.rows) × (waiting final.rows ≡ 0)
unfolding relay_run relay_step
rounds-waiting batch [] s b h l = (refl, omega arith)
rounds-waiting batch (p ∷ ps) s b (h, hs) l =
    let next = (poll batch p s).1 in
    let (same, le, less) = poll-Cleared batch p s h b in
    let (rest, empty) = rounds-waiting batch ps next b hs (omega arith) in (rest ∙ same, empty)

waiting-Sent :
    (log : List Message) (rows : List OutboxRow)
    → waiting rows ≡ 0
    → All (Sent log) rows
    → All (λ (r : OutboxRow). (at : ℤ) × Memᴰ (message_of at r.event) log) rows
waiting-Sent log [] z h = tt
waiting-Sent log (r ∷ rs) z h = elim (Bool-cases r.published) [
  | inl t ↦ (h.0 t, waiting-Sent log rs (ground arith) h.1)
  | inr f ↦ absurd (ground arith)
]

-- While nothing fails, as many polls as rows wait, with any batch size but zero, bring the event
-- of every row of the outbox to the broker, and the outbox holds the events that it held.
pub relay_drains :
    (batch : ℕ) (ps : List Poll) (s : Pipe)
    → 0 < batch
    → IsSound s
    → All IsHealthy ps
    → waiting s.rows ≤ length ps
    → let final = relay_run (rounds batch ps) s in
      (events final.rows ≡ events s.rows)
      × All (λ (r : OutboxRow). (at : ℤ) × Memᴰ (message_of at r.event) final.log) final.rows
relay_drains batch ps s b sound h l =
    let final = relay_run (rounds batch ps) s in
    let (same, empty) = rounds-waiting batch ps s b h l in
    (
      same,
      waiting-Sent final.log final.rows empty (relay_run-IsSound (rounds batch ps) s sound).sent,
    )
