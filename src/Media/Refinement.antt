-- ===== src/Media/Refinement.antt =====
-- The queues of the table stay those of the specification under the requests of handlers.go.
use vibe_sync.Base.{false}
use vibe_sync.Media.Queue.{max_position, shifted, out_of_range, next_position}
use vibe_sync.Media.Queues.{stuck, obeyed}
use vibe_sync.Media.Renumbering.{shifted-Renumbered, shifted-other}
use vibe_sync.Base.{true}
use vibe_sync.Base.{
  ℕ, zero, suc, ◌-◌, ◌<◌, ◌≤◌, ltb, ◌≡◌, ◌≢◌, refl, sym, ap, ◌∙◌, subst, inl, inr, Bool, not, ◌&&◌,
  Bool-cases, Option, none, some, String, str_eq, eq_iff, eq_refl, ℤ, List, [], ◌∷◌, ◌++◌, length,
  arith, if◌then◌else◌,
}
use vibe_sync.RoomService.Lifecycle.{Subject}
use vibe_sync.Media.Queue.{
  QueueItem, add, delete_at, renumber, Removal, removed, not_found, key_violation, renumbered,
  remove,
}
use vibe_sync.Media.Service.{
  MediaDb, require_queue_permission, add_body, add_to_queue, removal_reply, remove_from_queue,
}
use vibe_sync.Media.Dense.{
  own, media_of, IsDense, Gap, has, drop_at, media_of-append, length-media_of,
  next_position-IsDense, snoc-IsDense, delete_at-own, delete_at-other, without-Gap, has-IsDense,
}
use vibe_sync.Media.Renumbering.{own-snoc_in, own-snoc_out}
use vibe_sync.Media.Queues.{
  QueueRequest, handle, allowed, Queues, spec, in_catalogue, Represents, adds, removes,
}

-- A change of one room's queue.
Represents-change :
    (room : String) (f : List String → List String) (rows after : List QueueItem) (q : Queues)
    → Represents rows q
    → IsDense 0 (own room after)
    → media_of (own room after) ≡ f (q room)
    → ((other : String) → other ≢ room → own other after ≡ own other rows)
    → Represents after (λ other. if str_eq room other then f (q other) else q other)
Represents-change room f rows after q h d e same = record {
  dense = λ other. elim (Bool-cases (str_eq room other)) [
    | inl t ↦
        let here : room ≡ other = ground (arith, eq_iff room other) in
        subst (λ x. IsDense 0 (own x after)) here d
    | inr no_match ↦
        subst (IsDense 0) (sym (same other (λ p. ground (arith, eq_iff room other))))
          (h.dense other)
  ];
  media = λ other. elim (Bool-cases (str_eq room other)) [
    | inl t ↦
        let here : room ≡ other = ground (arith, eq_iff room other) in
        rw t (subst (λ x. media_of (own x after) ≡ f (q x)) here e)
    | inr no_match ↦
        rw no_match
          (ap media_of (same other (λ p. ground (arith, eq_iff room other))) ∙ h.media other)
  ];
}

add-Represents :
    (room media : String) (now : ℤ) (rows : List QueueItem) (q : Queues)
    → Represents rows q
    → Represents
        (add room media now rows).1
        (λ other. if str_eq room other then q other ++ media ∷ [] else q other)
unfolding add
add-Represents room media now rows q h =
    let item = (add room media now rows).0 in
    let mine = own-snoc_in room rows item (eq_refl room) in
    Represents-change room (λ ms. ms ++ media ∷ []) rows (add room media now rows).1 q h
      (subst (IsDense 0) (sym mine) (
        snoc-IsDense 0 (own room rows) item (h.dense room)
          (omega (arith, next_position-IsDense room rows (h.dense room)))))
      (ap media_of mine
        ∙ media_of-append (own room rows) (item ∷ [])
        ∙ ap (λ ms. ms ++ media ∷ []) (h.media room))
      (λ other n. own-snoc_out other rows item (ground (arith, eq_iff room other)))

pub drop_at-beyond : (p : ℕ) (ms : List String) → length ms ≤ p → drop_at p ms ≡ ms
drop_at-beyond p [] l = refl
drop_at-beyond zero (m ∷ ms) l = absurd (omega arith)
drop_at-beyond (suc p) (m ∷ ms) l = ap (λ xs. m ∷ xs) (drop_at-beyond p ms (omega arith))

-- What a removal may do to the queues, with whether its renumbering fails.
abbrev pub OnRemoval : List QueueItem → Queues → String → ℕ → Bool → Removal → Type 0
OnRemoval rows q room p fails (removed after) =
    Represents after (λ other. if str_eq room other then drop_at p (q other) else q other)
    × (p < length (q room))
    × (ltb max_position p ≡ false)
    × (fails ≡ false)
OnRemoval rows q room p fails not_found = (length (q room) ≤ p) × (ltb max_position p ≡ false)
OnRemoval rows q room p fails key_violation =
    (p < length (q room)) × (ltb max_position p ≡ false) × (fails ≡ true)
OnRemoval rows q room p fails out_of_range = ltb max_position p ≡ true

shifted-Represents :
    (room : String) (p : ℕ) (rows : List QueueItem) (q : Queues)
    → Represents rows q
    → Represents
        (shifted room p (delete_at room p rows).1)
        (λ other. if str_eq room other then drop_at p (q other) else q other)
shifted-Represents room p rows q h =
    let rest = (delete_at room p rows).1 in
    let (there, kept) = delete_at-own room p rows in
    let (gap, media) = without-Gap 0 p (own room rows) (omega arith) (h.dense room) in
    let minus : p - 0 ≡ p = omega arith in
    let (dense, same) = shifted-Renumbered room 0 p rest (subst (Gap 0 p) (sym kept) gap) in
    Represents-change room (drop_at p) rows (shifted room p rest) q h dense
      (same
        ∙ ap media_of kept
        ∙ media
        ∙ ap (λ n. drop_at n (media_of (own room rows))) minus
        ∙ ap (drop_at p) (h.media room))
      (λ other n. shifted-other room other p rest n ∙ delete_at-other room other p rows n)

pub remove-OnRemoval :
    (order : List ℕ) (room : String) (p : ℕ) (rows : List QueueItem) (q : Queues)
    → Represents rows q
    → OnRemoval rows q room p (stuck order room p rows) (remove order room p rows)
unfolding remove renumber renumbered
remove-OnRemoval order room p rows q h =
    let (found, rest) = delete_at room p rows in
    let (there, kept) = delete_at-own room p rows in
    let len : length (own room rows) ≡ length (q room) =
      sym (length-media_of (own room rows)) ∙ ap length (h.media room) in
    let test : found ≡ ltb p (length (own room rows)) =
      there ∙ has-IsDense p 0 (own room rows) (h.dense room) ∙ ground arith in
    elim (Bool-cases (ltb max_position p)) [
      | inl wide ↦ rw wide wide
      | inr fits ↦ elim (Bool-cases found) [
        | inr f ↦ rw (fits, f) (ground arith, fits)
        | inl t ↦ elim (Bool-cases (stuck order room p rows)) [
          | inl bad ↦ rw (fits, t, bad) (ground arith, fits, refl)
          | inr good ↦
              rw (fits, t, good) (shifted-Represents room p rows q h, ground arith, fits, refl)
        ]
      ]
    ]

abbrev pub adds_now : Subject → String → String → Option Bool → MediaDb → Bool
adds_now s room media has db =
    not (ltb max_position (next_position room db.queue))
    && (allowed s has && (not (str_eq room "") && (not (str_eq media "") && in_catalogue db media)))

add_to_queue-effect :
    (s : Subject) (room media : String) (has : Option Bool) (now : ℤ) (db : MediaDb)
    → (add_to_queue s room media has now db).1 ≡ (
        if adds_now s room media has db
        then record db { queue = (add room media now db.queue).1 }
        else db)
unfolding add_to_queue require_queue_permission add_body add
add_to_queue-effect s room media none now db = ground arith
add_to_queue-effect s room media (some granted) now db = ground arith

remove_from_queue-effect :
    (s : Subject) (room : String) (p : ℕ) (order : List ℕ) (has : Option Bool) (db : MediaDb)
    → (remove_from_queue s room p order has db).1
      ≡ (if allowed s has then (removal_reply (remove order room p db.queue) db).1 else db)
unfolding remove_from_queue require_queue_permission
remove_from_queue-effect s room p order none db = ground arith
remove_from_queue-effect s room p order (some granted) db = ground arith

Represents-as :
    (rows : List QueueItem) (q q' : Queues)
    → Represents rows q
    → ((room : String) → q room ≡ q' room)
    → Represents rows q'
Represents-as rows q q' h e = record { dense = h.dense; media = λ room. h.media room ∙ e room }

-- The table and the catalogue after a request.
abbrev pub Did : MediaDb → Queues → MediaDb → Type 0
Did db q after = Represents after.queue q × (after.media ≡ db.media)

-- The queues after an allowed removal.
abbrev Dropped : Queues → String → ℕ → Bool → Queues
Dropped q room p done other = if str_eq room other && done then drop_at p (q other) else q other

removal-Did :
    (room : String) (p : ℕ) (fails : Bool) (rm : Removal) (db : MediaDb) (q : Queues)
    → Represents db.queue q
    → OnRemoval db.queue q room p fails rm
    → Did db (Dropped q room p (not (ltb max_position p) && not fails)) (removal_reply rm db).1
unfolding removal_reply
removal-Did room p fails (removed rows) db q h (r, l, fits, good) =
    (Represents-as rows _ _ r (λ other. ground (arith, fits, good)), refl)
removal-Did room p fails key_violation db q h (l, fits, bad) =
    (Represents-as db.queue q _ h (λ other. ground (arith, bad)), refl)
removal-Did room p fails out_of_range db q h wide =
    (Represents-as db.queue q _ h (λ other. ground (arith, wide)), refl)
removal-Did room p fails not_found db q h (r, fits) = (
  Represents-as db.queue q _ h (λ other. elim (Bool-cases (str_eq room other)) [
    | inl t ↦
        let here : room ≡ other = ground (arith, eq_iff room other) in
        let same = drop_at-beyond p (q other) (subst (λ x. length (q x) ≤ p) here r) in
        ground (arith, t, same)
    | inr f ↦ rw f refl
  ]),
  refl,
)

pub step-Represents :
    (r : QueueRequest) (db : MediaDb) (q : Queues)
    → Represents db.queue q
    → Did db (spec (in_catalogue db) (obeyed r db) r q) (handle r db)
unfolding handle
step-Represents (adds s room media has now) db q h =
    elim (Bool-cases (adds_now s room media has db)) [
      | inl t ↦
          rw (add_to_queue-effect s room media has now db, t)
            (
              Represents-as _ _ _ (add-Represents room media now db.queue q h)
                  (λ other. ground arith),
              refl,
            )
      | inr f ↦
          rw (add_to_queue-effect s room media has now db, f)
            (Represents-as _ _ _ h (λ other. ground arith), refl)
    ]
step-Represents (removes s room p order has) db q h =
    let (after, same) =
      removal-Did room p (stuck order room p db.queue) (remove order room p db.queue) db q h
        (remove-OnRemoval order room p db.queue q h) in
    elim (Bool-cases (allowed s has)) [
      | inl t ↦
          rw (remove_from_queue-effect s room p order has db, t)
            (Represents-as _ _ _ after (λ other. ground arith), same)
      | inr f ↦
          rw (remove_from_queue-effect s room p order has db, f)
            (Represents-as _ _ _ h (λ other. ground arith), refl)
    ]
