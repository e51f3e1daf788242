-- ===== src/Sync/State/Commands.antt =====
-- What a playback command does to the position of a room (state.go).
use vibe_sync.Base.{Bool-cases, if◌then◌else◌}
use vibe_sync.Base.{
  ◌≡◌, refl, sym, subst, ◌∙◌, ◌⊎◌, inl, inr, Option-cases, Bool, true, false, ℤ, pos, ◌-ℤ◌, ◌+ℤ◌,
  IsInt64, wrap64_eq, add64, sub64, arith, int_laws, inc64,
}
use vibe_sync.Sync.Float.{Float64, zero_f, RateLaws, ScaleLaws}
use vibe_sync.Sync.State.{
  is_playing, SyncState, CommandKind, cmd_play, cmd_pause, cmd_seek, cmd_set_rate, cmd_load_media,
  Payload, advance_media_time, rate_in_range, dispatch, sample, apply_command,
}

pub sub64_self : (a : ℤ) → sub64 a a ≡ pos 0
unfolding sub64
sub64_self a = wrap64_eq (a -ℤ a) (omega int_laws) ∙ omega int_laws

pub sub64_zero : (a : ℤ) → IsInt64 a → sub64 a (pos 0) ≡ a
unfolding sub64
sub64_zero a h = wrap64_eq (a -ℤ pos 0) (omega int_laws) ∙ omega int_laws

pub add64_zero : (a : ℤ) → IsInt64 a → add64 a (pos 0) ≡ a
unfolding add64
add64_zero a h = wrap64_eq (a +ℤ pos 0) (omega int_laws) ∙ omega int_laws

-- Commands that do not choose a new position.
abbrev pub keeps_position : CommandKind → Bool
keeps_position cmd_seek = false
keeps_position cmd_load_media = false
keeps_position _ = true

module _ {F : Type 0} ⦃fl : Float64 F⦄ where
  -- Playing at a rate that is not zero, and the rate is zero or one that a client may ask for.
  pub record IsRunnable (s : SyncState F) : Type 0 where
    pub moving : is_playing s.status ≡ true → fl.eq s.playback_rate zero_f ≡ false
    pub rate_ok : (fl.eq s.playback_rate zero_f ≡ true) ⊎ (rate_in_range s.playback_rate ≡ true)

  dispatch_keeps :
      (kind : CommandKind) (p : Payload F) (s : SyncState F)
      → keeps_position kind ≡ true
      → ((dispatch kind p s).media_time_ms ≡ s.media_time_ms)
        × ((dispatch kind p s).wall_time_ms ≡ s.wall_time_ms)
  unfolding dispatch
  dispatch_keeps cmd_play p s h = ground arith
  dispatch_keeps cmd_set_rate p s h = ground arith
  dispatch_keeps cmd_seek p s h = cc
  dispatch_keeps cmd_load_media p s h = cc
  dispatch_keeps _ p s h = (refl, refl)

  -- The position is the sampled one at the sampling instant itself.
  pub advance-sample :
      (s : SyncState F) (now_ms : ℤ)
      → ScaleLaws fl
      → s.wall_time_ms ≡ now_ms
      → IsInt64 s.media_time_ms
      → fl.is_nan (fl.mul zero_f s.playback_rate) ≡ false
      → advance_media_time s now_ms ≡ s.media_time_ms
  unfolding advance_media_time
  advance-sample s now_ms l e i n =
      ground
        (arith, e, sub64_self now_ms, add64_zero s.media_time_ms i, l.scale_zero s.playback_rate n)

  sample-wall : (s : SyncState F) (now_ms : ℤ) → (sample s now_ms).wall_time_ms ≡ now_ms
  unfolding sample
  sample-wall s now_ms = ground arith

  -- The position of a room at an instant, from what was written last.
  abbrev pub position_at : SyncState F → ℤ → ℤ
  position_at s now_ms =
      if is_playing s.status then advance_media_time s now_ms else s.media_time_ms

  sample-media :
      (s : SyncState F) (now_ms : ℤ) → (sample s now_ms).media_time_ms ≡ position_at s now_ms
  unfolding sample
  sample-media s now_ms = elim (Bool-cases (is_playing s.status)) [
    | inl t ↦ rw t refl
    | inr f ↦ rw f refl
  ]

  -- A command other than a seek or a load makes no jump: at its instant the new state gives the
  -- position at which the old one stood by then, which is the one that was written, and in a
  -- playing room the time passed since then at the rate on top of it. The position fits in 64
  -- bits, and zero times the new rate is no NaN.
  pub apply_command_continuous :
      (kind : CommandKind) (p : Payload F) (now_ms now : ℤ) (s : SyncState F)
      → ScaleLaws fl
      → keeps_position kind ≡ true
      → IsInt64 (position_at s now_ms)
      → fl.is_nan (fl.mul zero_f (apply_command kind p now_ms now s).playback_rate) ≡ false
      → advance_media_time (apply_command kind p now_ms now s) now_ms ≡ position_at s now_ms
  unfolding apply_command
  apply_command_continuous kind p now_ms now s l k i n =
      let (kept, wall) = dispatch_keeps kind p (sample s now_ms) k in
      let media = kept ∙ sample-media s now_ms in
      advance-sample (apply_command kind p now_ms now s) now_ms l (wall ∙ sample-wall s now_ms)
        (subst IsInt64 (sym media) i) n
      ∙ media

  -- A pause freezes the position where it stood: it is the same at any later time, with no
  -- condition on the clock.
  pub pause_freezes :
      (p : Payload F) (now_ms now later : ℤ) (s : SyncState F)
      → RateLaws fl
      → advance_media_time (apply_command cmd_pause p now_ms now s) later
        ≡ (sample s now_ms).media_time_ms
  unfolding apply_command advance_media_time
  pause_freezes p now_ms now later s l = ground (arith, l.zero-eq-zero)

  -- No command, whatever its kind and payload, leaves a room playing at rate zero, or with a rate
  -- other than zero that no client may ask for, if the room was fine before it.
  pub apply_command-IsRunnable :
      (kind : CommandKind) (p : Payload F) (now_ms now : ℤ) (s : SyncState F)
      → RateLaws fl
      → IsRunnable s
      → IsRunnable (apply_command kind p now_ms now s)
  unfolding apply_command
  apply_command-IsRunnable cmd_play p now_ms now s l h =
      ground (arith, l.one-ne-zero, l.one-ge-quarter, l.one-le-four)
  apply_command-IsRunnable cmd_set_rate p now_ms now s l h = elim (Option-cases p.rate) [
    | inl e ↦ ground arith
    | inr (r, e) ↦ ground (arith, l.quarter_pos r, l.pos-ne-zero r)
  ]
  apply_command-IsRunnable cmd_pause p now_ms now s l h = ground (arith, l.zero-eq-zero)
  apply_command-IsRunnable cmd_load_media p now_ms now s l h = ground (arith, l.zero-eq-zero)
  apply_command-IsRunnable cmd_seek p now_ms now s l h = ground arith
  apply_command-IsRunnable _ p now_ms now s l h = ground arith

  -- Every command, whatever its kind, makes one new epoch, and no command touches who is in
  -- charge of the room.
  pub apply_command_frame :
      (kind : CommandKind) (p : Payload F) (now_ms now : ℤ) (s : SyncState F)
      → let t = apply_command kind p now_ms now s in
        (t.epoch ≡ inc64 s.epoch)
        × (t.host_id ≡ s.host_id)
        × (t.fencing_token ≡ s.fencing_token)
        × (t.owner_id ≡ s.owner_id)
        × (t.room_id ≡ s.room_id)
  unfolding apply_command
  apply_command_frame cmd_set_rate p now_ms now s = ground arith
  apply_command_frame cmd_play p now_ms now s = ground arith
  apply_command_frame cmd_seek p now_ms now s = ground arith
  apply_command_frame _ p now_ms now s = ground arith
