-- ===== src/Delivery/Publishing.antt =====
-- The relay loses no event, and invents none.
use mathlib.Core.List.{Memᴰ}
use vibe_sync.Base.{
  ℕ, ◌==◌, ◌≡◌, ◌≢◌, refl, sym, ap, subst, Bool, true, false, Option, some, none, List, [], ◌∷◌,
  ◌++◌, length, All, All-imp, All-append, if◌then◌else◌,
}
use vibe_sync.Delivery.Outbox.{OutboxEvent, OutboxRow, row_of, append, fetch_unpublished}
use vibe_sync.Delivery.Relay.{
  Message, Outcome, done, unsure, failed, Poll, Pipe, or_keep, send_all, close, drain_once, poll,
  stage, RelayStep, staged, polled, relay_step, relay_run,
}
use vibe_sync.Delivery.Rows.{
  Distinct, OnSome, append-keeps, snoc_row-Distinct, events, fetch-All, fetch-Agrees,
}
use vibe_sync.Delivery.Sending.{Known, Sent, mem-left, Sent-grow, Made, send_all-Made}

pub record IsSound (s : Pipe) : Type 0 where
  pub distinct : Distinct s.rows
  pub sent : All (Sent s.log) s.rows
  pub known : All (Known (events s.rows)) s.log

mem-events : (rows : List OutboxRow) → All (λ (r : OutboxRow). Memᴰ r.event (events rows)) rows
mem-events [] = tt
mem-events (r ∷ rs) = (Memᴰ.head refl, All-imp _ _ (λ q h. Memᴰ.tail h) rs (mem-events rs))

close-IsSound :
    (c : Outcome) (n : ℕ) (s : Pipe) (o : Option (List OutboxRow) × List Message)
    → IsSound s
    → Made (events s.rows) s.log o
    → IsSound (close c n s.rows o).1
close-IsSound c n s (none, log) h (g, k, up) = record {
  distinct = h.distinct;
  sent = Sent-grow s.log log s.rows up h.sent;
  known = k;
}
close-IsSound done n s (some rows, log) h (g, k, up) = record {
  distinct = g.apart;
  sent = g.went;
  known = subst (λ es. All (Known es) log) (sym g.same) k;
}
close-IsSound unsure n s (some rows, log) h (g, k, up) = record {
  distinct = g.apart;
  sent = g.went;
  known = subst (λ es. All (Known es) log) (sym g.same) k;
}
close-IsSound failed n s (some rows, log) h (g, k, up) = record {
  distinct = h.distinct;
  sent = Sent-grow s.log log s.rows up h.sent;
  known = k;
}

if-IsSound :
    {A : Type 0}
    → (b : Bool) (x y : A × Pipe) → IsSound x.1
    → IsSound y.1
    → IsSound (if b then x else y).1
if-IsSound true x y h g = h
if-IsSound false x y h g = g

drain_once-IsSound :
    (p : Poll) (batch : ℕ) (s : Pipe) → IsSound s → IsSound (drain_once p batch s).1
unfolding drain_once
drain_once-IsSound p batch s h =
    let pending = fetch_unpublished batch p.locked s.rows in
    let made =
      send_all-Made p (events s.rows) pending s.rows s.log
        (record { same = refl; apart = h.distinct; went = h.sent }) h.known
        (fetch-All (λ (e : OutboxEvent). Memᴰ e (events s.rows)) batch p.locked s.rows
          (All-imp _ _ (λ r m e. m) s.rows (mem-events s.rows)))
        (fetch-Agrees batch p.locked s.rows h.distinct) in
    let closed =
      close-IsSound p.commits (length pending) s (send_all p pending s.rows s.log) h made in
    if-IsSound p.begins _ (0, s)
      (if-IsSound p.fetches _ (0, s) (if-IsSound (length pending == 0) (0, s) _ h closed) h) h

poll-IsSound : (batch : ℕ) (p : Poll) (s : Pipe) → IsSound s → IsSound (poll batch p s).1
unfolding poll
poll-IsSound batch p s h = if-IsSound p.leads _ (true, s) (drain_once-IsSound p batch s h) h

events-snoc :
    (rows : List OutboxRow) (r : OutboxRow) → events (rows ++ r ∷ []) ≡ events rows ++ r.event ∷ []
events-snoc [] r = refl
events-snoc (q ∷ rows) r = ap (λ es. q.event ∷ es) (events-snoc rows r)

grow-IsSound :
    (e : OutboxEvent) (rows : List OutboxRow) (log : List Message)
    → All (λ (q : OutboxRow). q.event.id ≢ e.id) rows
    → IsSound (record { rows = rows; log = log })
    → IsSound (record { rows = rows ++ row_of e ∷ []; log = log })
grow-IsSound e rows log n h = record {
  distinct = snoc_row-Distinct e rows n h.distinct;
  sent = All-append (Sent log) rows (row_of e ∷ []) h.sent ((λ p. cc), tt);
  known =
      All-imp _ _
        (λ m k.
          let (at, x, there, eq) = k in
          (
            at,
            x,
            subst (λ es. Memᴰ x es) (sym (events-snoc rows (row_of e)))
                (mem-left x (events rows) _ there),
            eq,
          ))
        log h.known;
}

keep-IsSound :
    (s : Pipe) (o : Option (List OutboxRow))
    → IsSound s
    → OnSome (λ rows. IsSound (record s { rows = rows })) o
    → IsSound (or_keep s o)
keep-IsSound s none h g = h
keep-IsSound s (some rows) h g = g

stage-IsSound : (es : List OutboxEvent) (s : Pipe) → IsSound s → IsSound (stage es s)
unfolding stage
stage-IsSound es s h = keep-IsSound s (append es s.rows) h (
    append-keeps (λ rows. IsSound (record s { rows = rows }))
      (λ e rows n g. grow-IsSound e rows s.log n g) es s.rows h)

-- Whatever requests stage and however each poll of the relay ends, with the lock lost, a batch
-- broken off, a message written but not acknowledged, or a commit in doubt: ids stay distinct,
-- every row that is marked as published has its message at the broker, and every message there is
-- that of a staged event whose transaction was committed.
pub relay_run-IsSound : (xs : List RelayStep) (s : Pipe) → IsSound s → IsSound (relay_run xs s)
unfolding relay_run relay_step
relay_run-IsSound [] s h = h
relay_run-IsSound (staged es ∷ xs) s h = relay_run-IsSound xs _ (stage-IsSound es s h)
relay_run-IsSound (polled batch p ∷ xs) s h = relay_run-IsSound xs _ (poll-IsSound batch p s h)
