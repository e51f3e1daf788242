-- ===== src/Playback/Convergence.antt =====
-- The mirror behind its RPC, and the room that it mirrors: playback-service and sync-service.
use mathlib.Core.List.{Memᴰ}
use vibe_sync.Base.{
  ◌*◌, ◌≤◌, ◌<◌, ◌≡◌, ◌≢◌, refl, sym, ap, ◌∙◌, subst, some, String, eq_iff, ℤ, List, [], ◌∷◌, ◌++◌,
  length, lookup-insert_self, All, arith, wrap16, of_bits16,
}
use vibe_sync.Sync.Float.{Float64}
use vibe_sync.Sync.State.{PlaybackStatus, unspecified, paused, playing, buffering, ended}
use vibe_sync.Sync.Room.{RoomSync, StateProto, state_to_proto}
use vibe_sync.Sync.Room.Steps.{Event, run}
use vibe_sync.Playback.Room.{SyncCommand, apply_sync_command}
use vibe_sync.Playback.Service.{
  RoomCache, status_number, read_command, cached, cache_command, apply_sync_command_rpc,
}
use vibe_sync.Playback.Deliveries.{deliver, shows}
use vibe_sync.Playback.Authority.{sync_command, Fits}
use vibe_sync.Playback.Mirror.{IsOf, deliver-converges}

read-send :
    {F : Type 0} → (rs : RoomSync F) → read_command (state_to_proto rs) ≡ sync_command rs.state
unfolding read_command state_to_proto
read-send rs = ground (arith, eq_iff rs.state.media_id "", eq_iff rs.state.host_id "")

wrap16-status : (st : PlaybackStatus) → wrap16 (status_number st) ≡ status_number st
unfolding wrap16 of_bits16
wrap16-status unspecified = refl
wrap16-status paused = refl
wrap16-status playing = refl
wrap16-status buffering = refl
wrap16-status ended = refl

module _ {F : Type 0} ⦃fl : Float64 F⦄ where
  -- The calls of ApplySyncCommand for one room, each with the time of its arrival.
  unfoldable pub requests : String → List (StateProto F × ℤ) → RoomCache F → RoomCache F
  requests id [] cache = cache
  requests id ((m, now) ∷ ds) cache =
      requests id ds (apply_sync_command_rpc id (some (read_command m)) now cache).1

  abbrev commands_of : List (StateProto F × ℤ) → List (SyncCommand F × ℤ)
  commands_of [] = []
  commands_of ((m, now) ∷ ds) = (read_command m, now) ∷ commands_of ds

  narrow :
      (m : StateProto F)
      → record (read_command m) { status = wrap16 (status_number m.status) } ≡ read_command m
  unfolding read_command
  narrow m = rw (wrap16-status m.status) refl

  cached-command :
      (id : String) (c : SyncCommand F) (now : ℤ) (cache : RoomCache F)
      → cached id (cache_command id c now cache).1 ≡ (apply_sync_command c now (cached id cache)).1
  unfolding cache_command
  cached-command id c now cache =
      rw (lookup-insert_self id (apply_sync_command c now (cached id cache)).1 cache) refl

  request-apply :
      (id : String) (m : StateProto F) (now : ℤ) (cache : RoomCache F)
      → id ≢ ""
      → cached id (apply_sync_command_rpc id (some (read_command m)) now cache).1
        ≡ (apply_sync_command (read_command m) now (cached id cache)).1
  unfolding apply_sync_command_rpc read_command
  request-apply id m now cache n =
      ground (arith, eq_iff id "", narrow m, cached-command id (read_command m) now cache)

  requests-deliver :
      (id : String) (ds : List (StateProto F × ℤ)) (cache : RoomCache F)
      → id ≢ ""
      → cached id (requests id ds cache) ≡ deliver (commands_of ds) (cached id cache)
  unfolding requests deliver
  requests-deliver id [] cache n = refl
  requests-deliver id ((m, now) ∷ ds) cache n =
      requests-deliver id ds _ n ∙ ap (deliver (commands_of ds)) (request-apply id m now cache n)

  -- The message shows the room as it was at some time of the history.
  abbrev pub WasSent : List (Event F) → RoomSync F → StateProto F → Type 0
  WasSent es rs m =
      (before : List (Event F)) × (after : List (Event F)) × (es ≡ before ++ after)
      × (m ≡ state_to_proto (run before rs))

  WasSent-IsOf :
      (es : List (Event F)) (rs : RoomSync F) (ds : List (StateProto F × ℤ))
      → All (λ d. WasSent es rs d.0) ds
      → All (λ d. IsOf es rs d.0) (commands_of ds)
  WasSent-IsOf es rs [] h = tt
  WasSent-IsOf es rs ((m, now) ∷ ds) ((before, after, split, e), h) = (
    (before, after, split, ap read_command e ∙ read-send (run before rs)),
    WasSent-IsOf es rs ds h,
  )

  mem_of :
      (m : StateProto F) (now : ℤ) (ds : List (StateProto F × ℤ))
      → Memᴰ (m, now) ds
      → Memᴰ (read_command m, now) (commands_of ds)
  mem_of m now [] h = elim h [ ]
  mem_of m now ((m', now') ∷ ds) (Memᴰ.head e) =
      Memᴰ.head (ap (λ (x : StateProto F × ℤ). (read_command x.0, x.1)) e)
  mem_of m now ((m', now') ∷ ds) (Memᴰ.tail h) = Memᴰ.tail (mem_of m now ds h)

  -- Calls of ApplySyncCommand that carry states of a room's history, in any order and any number
  -- of times, the last state among them, leave the room in the cache showing that last state, if
  -- it showed an older version before, and if no counter can wrap around within the history.
  pub mirror_converges :
      (es : List (Event F)) (rs : RoomSync F) (id : String) (ds : List (StateProto F × ℤ)) (now : ℤ)
      (cache : RoomCache F)
      → Fits rs.state (2 * length es)
      → id ≢ ""
      → ((cached id cache).epoch < rs.state.epoch)
        × ((cached id cache).fencing_token ≤ rs.state.fencing_token)
      → All (λ d. WasSent es rs d.0) ds
      → Memᴰ (state_to_proto (run es rs), now) ds
      → shows (cached id (requests id ds cache)) ≡ read_command (state_to_proto (run es rs))
  mirror_converges es rs id ds now cache fits n older all m =
      let last = run es rs in
      let there =
        subst (λ (c : SyncCommand F). Memᴰ (c, now) (commands_of ds)) (read-send last)
          (mem_of (state_to_proto last) now ds m) in
      ap shows (requests-deliver id ds cache n)
      ∙ deliver-converges es rs (commands_of ds) now (cached id cache) fits older
          (WasSent-IsOf es rs ds all) there
      ∙ sym (read-send last)
