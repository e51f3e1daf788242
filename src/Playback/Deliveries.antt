-- ===== src/Playback/Deliveries.antt =====
-- Commands may arrive late, twice, or out of order: what the mirror of a room ends with.
use mathlib.Core.List.{Memᴰ}
use vibe_sync.Base.{ap, ◌∙◌, ◌<◌, ◌≤◌, ◌≡◌, refl, ◌⊎◌, inl, inr, ℤ, arith, List, [], ◌∷◌, All}
use vibe_sync.Playback.Room.{PlaybackRoom, SyncCommand, apply_sync_command}

module _ {F : Type 0} where
  -- Each command with the time of its arrival.
  unfoldable pub deliver : List (SyncCommand F × ℤ) → PlaybackRoom F → PlaybackRoom F
  deliver [] r = r
  deliver ((c, now) ∷ cs) r = deliver cs (apply_sync_command c now r).1

  -- What a room shows of the authoritative state.
  unfoldable pub shows : PlaybackRoom F → SyncCommand F
  shows r = record {
    media_id = r.media_id;
    status = r.status;
    media_time_ms = r.media_time_ms;
    wall_time_ms = r.wall_time_ms;
    playback_rate = r.playback_rate;
    epoch = r.epoch;
    host_id = r.host_id;
    fencing_token = r.fencing_token;
  }

  -- Versions: first by the token, then by the epoch.
  abbrev pub NotNewer : SyncCommand F → SyncCommand F → Type 0
  NotNewer a b =
      (a.fencing_token < b.fencing_token)
      ⊎ ((a.fencing_token ≡ b.fencing_token) × (a.epoch ≤ b.epoch))

  one :
      (c : SyncCommand F) (now : ℤ) (r : PlaybackRoom F)
      → let after = shows (apply_sync_command c now r).1 in
        NotNewer (shows r) after × NotNewer c after × ((after ≡ shows r) ⊎ (after ≡ c))
  unfolding apply_sync_command shows
  one c now r = ground arith

  NotNewer-trans : (a b c : SyncCommand F) → NotNewer a b → NotNewer b c → NotNewer a c
  NotNewer-trans a b c h k = ground arith

  deliver_up :
      (cs : List (SyncCommand F × ℤ)) (r : PlaybackRoom F)
      → NotNewer (shows r) (shows (deliver cs r))
  unfolding deliver shows
  deliver_up [] r = inr (refl, omega arith)
  deliver_up ((c, now) ∷ cs) r =
      let next = (apply_sync_command c now r).1 in
      NotNewer-trans (shows r) (shows next) (shows (deliver cs next)) (one c now r).0
        (deliver_up cs next)

  keep_or_pick :
      (c : SyncCommand F) (now : ℤ) (cs : List (SyncCommand F × ℤ))
      (before next final : SyncCommand F)
      → (next ≡ before) ⊎ (next ≡ c)
      → (final ≡ next) ⊎ ((t : ℤ) × Memᴰ (final, t) cs)
      → (final ≡ before) ⊎ ((t : ℤ) × Memᴰ (final, t) ((c, now) ∷ cs))
  keep_or_pick c now cs before next final h (inr (t, m)) = inr (t, Memᴰ.tail m)
  keep_or_pick c now cs before next final (inl p) (inl q) = inl (q ∙ p)
  keep_or_pick c now cs before next final (inr p) (inl q) =
      inr (now, Memᴰ.head (ap (λ x. (x, now)) (q ∙ p)))

  -- Whatever the order of arrival, the mirror ends with the newest version of what arrived: it is
  -- what the mirror showed before or one of the commands, and none of these is newer.
  pub deliver_newest :
      (cs : List (SyncCommand F × ℤ)) (r : PlaybackRoom F)
      → let final = shows (deliver cs r) in
        NotNewer (shows r) final
        × All (λ d. NotNewer d.0 final) cs
        × ((final ≡ shows r) ⊎ ((now : ℤ) × Memᴰ (final, now) cs))
  unfolding deliver
  deliver_newest [] r = (inr (refl, omega arith), tt, inl refl)
  deliver_newest ((c, now) ∷ cs) r =
      let next = (apply_sync_command c now r).1 in
      let final = shows (deliver cs next) in
      let (up, all, from) = deliver_newest cs next in
      let (kept, newest, choice) = one c now r in
      (
        NotNewer-trans (shows r) (shows next) final kept up,
        (NotNewer-trans c (shows next) final newest up, all),
        keep_or_pick c now cs (shows r) (shows next) final choice from,
      )
