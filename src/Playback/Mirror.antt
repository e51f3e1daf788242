-- ===== src/Playback/Mirror.antt =====
-- The mirror and the room that it mirrors: apps/playback-service behind apps/sync-service.
use mathlib.Core.List.{Memᴰ}
use vibe_sync.Base.{
  ◌+◌, ◌*◌, ◌≤◌, ◌<◌, ◌≡◌, refl, sym, ap, ◌∙◌, subst, ◌⊎◌, inl, inr, ℤ, List, [], ◌∷◌, ◌++◌, length,
  length-append, All, arith,
}
use vibe_sync.Sync.Float.{Float64}
use vibe_sync.Sync.Room.{RoomSync}
use vibe_sync.Sync.Room.Steps.{Event, run}
use vibe_sync.Playback.Room.{PlaybackRoom, SyncCommand}
use vibe_sync.Playback.Deliveries.{deliver, shows, NotNewer, deliver_newest}
use vibe_sync.Playback.Authority.{sync_command, Fits, run-Ahead}

module _ {F : Type 0} ⦃fl : Float64 F⦄ where
  -- The command shows the room as it was at some time of the history.
  abbrev pub IsOf : List (Event F) → RoomSync F → SyncCommand F → Type 0
  IsOf es rs c =
      (before : List (Event F)) × (after : List (Event F)) × (es ≡ before ++ after)
      × (c ≡ sync_command (run before rs).state)

  abbrev Beyond : SyncCommand F → RoomSync F → Type 0
  Beyond c rs =
      (sync_command rs.state ≡ c)
      ⊎ ((c.epoch < rs.state.epoch) × (c.fencing_token ≤ rs.state.fencing_token))

  run-append :
      (before after : List (Event F)) (rs : RoomSync F)
      → run (before ++ after) rs ≡ run after (run before rs)
  unfolding run
  run-append [] after rs = refl
  run-append (e ∷ es) after rs = run-append es after _

  -- Whatever a history showed, it has not fallen behind at the end.
  IsOf-last :
      (es : List (Event F)) (rs : RoomSync F) (c : SyncCommand F)
      → Fits rs.state (2 * length es)
      → IsOf es rs c
      → Beyond c (run es rs)
  IsOf-last es rs c fits (before, after, split, e) =
      let then_rs = run before rs in
      let len : length es ≡ length before + length after =
        ap length split ∙ length-append before after in
      let early = run-Ahead before rs (omega arith, omega arith) in
      let late = run-Ahead after then_rs (omega (arith, early.soon), omega (arith, early.near)) in
      let whole : run es rs ≡ run after then_rs =
        ap (λ l. run l rs) split ∙ run-append before after rs in
      subst (Beyond c) (sym whole)
        (subst (λ (x : SyncCommand F). Beyond x (run after then_rs)) (sym e) late.grown)

  mem-All :
      (ds : List (SyncCommand F × ℤ)) (P : SyncCommand F → Type 0) (c : SyncCommand F) (now : ℤ)
      → All (λ d. P d.0) ds
      → Memᴰ (c, now) ds
      → P c
  mem-All [] P c now all m = elim m [ ]
  mem-All (d ∷ ds) P c now all (Memᴰ.head e) =
      subst P (sym (ap (λ (x : SyncCommand F × ℤ). x.0) e)) all.0
  mem-All (d ∷ ds) P c now all (Memᴰ.tail m) = mem-All ds P c now all.1 m

  not-above-newer :
      (c last : SyncCommand F)
      → c.epoch < last.epoch
      → c.fencing_token ≤ last.fencing_token
      → ¬ NotNewer last c
  not-above-newer c last e f (inl h) = omega arith
  not-above-newer c last e f (inr (h, k)) = omega arith

  not-kept :
      (es : List (Event F)) (rs : RoomSync F) (r : PlaybackRoom F)
      → Fits rs.state (2 * length es)
      → (r.epoch < rs.state.epoch) × (r.fencing_token ≤ rs.state.fencing_token)
      → ¬ NotNewer (sync_command (run es rs).state) (shows r)
  unfolding shows
  not-kept es rs r fits (e, f) above = elim (run-Ahead es rs fits).grown [
    | inl same ↦
        not-above-newer (shows r) (sync_command rs.state) e f
          (subst (λ (x : SyncCommand F). NotNewer x (shows r)) same above)
    | inr (up, hold) ↦
        not-above-newer (shows r) (sync_command (run es rs).state) (omega arith) (omega arith) above
  ]

  -- The states of a room's history, delivered in any order and any number of times, the last one
  -- among them, leave a mirror that starts from an older version with the last state, as long as
  -- no counter of the room can wrap around within the history.
  pub deliver-converges :
      (es : List (Event F)) (rs : RoomSync F) (ds : List (SyncCommand F × ℤ)) (now : ℤ)
      (r : PlaybackRoom F)
      → Fits rs.state (2 * length es)
      → (r.epoch < rs.state.epoch) × (r.fencing_token ≤ rs.state.fencing_token)
      → All (λ d. IsOf es rs d.0) ds
      → Memᴰ (sync_command (run es rs).state, now) ds
      → shows (deliver ds r) ≡ sync_command (run es rs).state
  deliver-converges es rs ds now r fits older all m =
      let last = sync_command (run es rs).state in
      let final = shows (deliver ds r) in
      let (up, newest, from) = deliver_newest ds r in
      let above : NotNewer last final = mem-All ds (λ c. NotNewer c final) last now newest m in
      elim from [
        | inl kept ↦ absurd (not-kept es rs r fits older (subst (NotNewer last) kept above))
        | inr (t, m') ↦ elim (IsOf-last es rs final fits (mem-All ds (IsOf es rs) final t all m')) [
          | inl same ↦ sym same
          | inr up' ↦ absurd (not-above-newer final last up'.0 up'.1 above)
        ]
      ]
