-- ===== src/Delivery/Sending.antt =====
-- A batch of the relay: what send_all and the marks after it leave in the rows and in the log.
use mathlib.Core.List.{Memᴰ}
use vibe_sync.Base.{
  ◌≡◌, refl, sym, ◌∙◌, subst, Bool, true, false, Bool-cases, inl, inr, Option, str_eq, eq_iff, ℤ,
  List, [], ◌∷◌, ◌++◌, All, All-imp, All-append, arith,
}
use vibe_sync.Delivery.Outbox.{OutboxEvent, OutboxRow, mark_published}
use vibe_sync.Delivery.Relay.{
  Message, message_of, Outcome, done, unsure, failed, Poll, proceed, send_all,
}
use vibe_sync.Delivery.Rows.{Distinct, Agrees, OnSome, events, events-mark, All-mark, mark-Distinct}

-- A published row has its message at the broker.
abbrev pub Sent : List Message → OutboxRow → Type 0
Sent log r = r.published ≡ true → (at : ℤ) × Memᴰ (message_of at r.event) log

abbrev Grows : List Message → List Message → Type 0
Grows log more = (m : Message) → Memᴰ m log → Memᴰ m more

pub mem-left : {A : Type 0} → (x : A) (xs ys : List A) → Memᴰ x xs → Memᴰ x (xs ++ ys)
mem-left x [] ys h = elim h [ ]
mem-left x (y ∷ xs) ys (Memᴰ.head e) = Memᴰ.head e
mem-left x (y ∷ xs) ys (Memᴰ.tail h) = Memᴰ.tail (mem-left x xs ys h)

mem-last : {A : Type 0} → (x : A) (xs : List A) → Memᴰ x (xs ++ x ∷ [])
mem-last x [] = Memᴰ.head refl
mem-last x (y ∷ xs) = Memᴰ.tail (mem-last x xs)

pub Sent-grow :
    (log more : List Message) (rows : List OutboxRow)
    → Grows log more
    → All (Sent log) rows
    → All (Sent more) rows
Sent-grow log more rows g h =
    All-imp _ _ (λ r s p. let (at, m) = s p in (at, g (message_of at r.event) m)) rows h

-- After its message has gone out, a row may be marked.
mark-Sent :
    (e : OutboxEvent) (now at : ℤ) (log : List Message) (rows : List OutboxRow)
    → Agrees rows e
    → Memᴰ (message_of now e) log
    → All (Sent log) rows
    → All (Sent log) (mark_published e.id at rows)
unfolding mark_published
mark-Sent e now at log [] a m h = tt
mark-Sent e now at log (r ∷ rs) a m h = elim (Bool-cases (str_eq r.event.id e.id)) [
  | inl t ↦ rw t (
    λ p. (
      now,
      subst (λ (x : OutboxEvent). Memᴰ (message_of now x) log)
          (sym (a.0 (ground (arith, eq_iff r.event.id e.id)))) m,
    ),
    mark-Sent e now at log rs a.1 m h.1,
  )
  | inr f ↦ rw f (h.0, mark-Sent e now at log rs a.1 m h.1)
]

pub record Holds (es : List OutboxEvent) (log : List Message) (rows : List OutboxRow) : Type 0 where
  pub same : events rows ≡ es
  pub apart : Distinct rows
  pub went : All (Sent log) rows

-- A message is that of one of these events.
abbrev pub Known : List OutboxEvent → Message → Type 0
Known es m = (at : ℤ) × (e : OutboxEvent) × Memᴰ e es × (m ≡ message_of at e)

-- What a batch makes of the table, if it ends well, and of the log.
abbrev pub Made : List OutboxEvent → List Message → Option (List OutboxRow) × List Message → Type 0
Made es log (after, more) = OnSome (Holds es more) after × All (Known es) more × Grows log more

proceed-Made :
    (o : Outcome) (marks : Bool) (es : List OutboxEvent)
    (rest : Option (List OutboxRow) × List Message) (written log : List Message)
    → Made es written rest
    → All (Known es) written
    → All (Known es) log
    → Grows log written
    → Made es log (proceed o marks rest written log)
proceed-Made done true es (after, more) written log (h, k, up) kw kl g = (h, k, λ x y. up x (g x y))
proceed-Made done false es (after, more) written log h kw kl g = (tt, kw, g)
proceed-Made unsure marks es (after, more) written log h kw kl g = (tt, kw, g)
proceed-Made failed marks es (after, more) written log h kw kl g = (tt, kl, λ x y. y)

mark-Holds :
    (e : OutboxEvent) (now at : ℤ) (es : List OutboxEvent) (log : List Message)
    (rows : List OutboxRow)
    → Agrees rows e
    → Holds es log rows
    → Holds es (log ++ message_of now e ∷ []) (mark_published e.id at rows)
mark-Holds e now at es log rows a h =
    let m = message_of now e in
    let more = log ++ m ∷ [] in
    record {
      same = events-mark e.id at rows ∙ h.same;
      apart = mark-Distinct e.id at rows h.apart;
      went =
          mark-Sent e now at more rows a (mem-last m log)
            (Sent-grow log more rows (λ x y. mem-left x log (m ∷ []) y) h.went);
    }

pub send_all-Made :
    (p : Poll) (es : List OutboxEvent) (pending : List OutboxEvent) (rows : List OutboxRow)
    (log : List Message)
    → Holds es log rows
    → All (Known es) log
    → All (λ (e : OutboxEvent). Memᴰ e es) pending
    → All (Agrees rows) pending
    → Made es log (send_all p pending rows log)
unfolding send_all
send_all-Made p es [] rows log h k m a = (h, k, λ x y. y)
send_all-Made p es (e ∷ pending) rows log h k m a =
    let now = p.clock e.id in
    let at = p.marked_at e.id in
    let msg = message_of now e in
    let more = log ++ msg ∷ [] in
    let known : All (Known es) more =
      All-append (Known es) log (msg ∷ []) k ((now, e, m.0, refl), tt) in
    let grown : Grows log more = λ x y. mem-left x log (msg ∷ []) y in
    let agree =
      All-imp _ _ (λ x b. All-mark (λ (y : OutboxEvent). y.id ≡ x.id → y ≡ x) e.id at rows b)
        pending a.1 in
    let rest =
      send_all-Made p es pending (mark_published e.id at rows) more
        (mark-Holds e now at es log rows a.0 h) known m.1 agree in
    proceed-Made (p.sends msg) (p.marks e.id) es _ more log rest known k grown
