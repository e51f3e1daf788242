-- ===== src/Sync/Heartbeat.antt =====
-- apps/sync-service/internal/domain/heartbeat.go: round trip and clock offset of one client.
-- The origin of time is Go's zero `time.Time`.
pub mod Estimate
use vibe_sync.Base.{
  ℕ, Bool, true, false, ℤ, pos, ltb_ℤ, ◌-ℤ◌, sub64, max_int64, min_int64, if◌then◌else◌, ◌+ℤ◌,
}
use vibe_sync.Sync.Float.{Float64, zero_f}

pub record ClientHeartbeat (F : Type 0) : Type 0 where
  pub smoothed_rtt : F
  pub smoothed_offset : F
  pub drift_ms : F
  pub last_seen : ℤ
  pub prev_t1 : ℤ
  pub prev_t2 : ℤ
  pub prev_t3 : ℤ
  pub has_prev : Bool

-- `Time.Sub` saturates at the ends of a Duration.
unfoldable pub sub_time : ℤ → ℤ → ℤ
sub_time a b =
    let d = a -ℤ b in
    if ltb_ℤ max_int64 d then max_int64 else if ltb_ℤ d min_int64 then min_int64 else d

module _ {F : Type 0} ⦃fl : Float64 F⦄ where
  -- The zero value `&ClientHeartbeat{}`.
  unfoldable pub new_heartbeat : ClientHeartbeat F
  new_heartbeat = record {
    smoothed_rtt = zero_f;
    smoothed_offset = zero_f;
    drift_ms = zero_f;
    last_seen = pos 0;
    prev_t1 = pos 0;
    prev_t2 = pos 0;
    prev_t3 = pos 0;
    has_prev = false;
  }

  abbrev ewma_alpha : F
  ewma_alpha = fl.ratio 25 100

  abbrev one_minus_alpha : F
  one_minus_alpha = fl.ratio 75 100

  unfoldable pub ewma : F → F → F
  ewma new old = fl.add (fl.mul ewma_alpha new) (fl.mul one_minus_alpha old)

  unfoldable pub rtt_of : ℤ → ClientHeartbeat F → F
  rtt_of t4 c =
      let rtt = fl.sub (fl.of_int (sub64 t4 c.prev_t1)) (fl.of_int (sub64 c.prev_t3 c.prev_t2)) in
      if fl.lt rtt zero_f then zero_f else rtt

  unfoldable pub offset_of : ℤ → ClientHeartbeat F → F
  offset_of t4 c =
      fl.div (fl.add (fl.of_int (sub64 c.prev_t2 c.prev_t1)) (fl.of_int (sub64 c.prev_t3 t4)))
        (fl.of_int (pos 2))

  -- The two smoothed estimates: taken over at first, and averaged from then on.
  unfoldable pub smooth : F → F → ClientHeartbeat F → ClientHeartbeat F
  smooth rtt offset c =
      if fl.eq c.smoothed_rtt zero_f
      then record c { smoothed_rtt = rtt; smoothed_offset = offset }
      else record c {
        smoothed_rtt = ewma rtt c.smoothed_rtt;
        smoothed_offset = ewma offset c.smoothed_offset;
      }

  unfoldable pub update : ℤ → ℤ → ℤ → ℤ → ClientHeartbeat F → ClientHeartbeat F
  update t1 t2 t3 now c =
      let s = if c.has_prev then smooth (rtt_of t1 c) (offset_of t1 c) c else c in
      record s { prev_t1 = t1; prev_t2 = t2; prev_t3 = t3; has_prev = true; last_seen = now }

  unfoldable pub is_alive : ClientHeartbeat F → ℤ → ℤ → Bool
  is_alive c now timeout = ltb_ℤ (sub_time now c.last_seen) timeout

  unfoldable pub client_media_time_at : ClientHeartbeat F → ℤ → F
  client_media_time_at c t = fl.add (fl.of_int t) c.smoothed_offset

  reset : ClientHeartbeat F → ClientHeartbeat F
  reset c = record c {
    smoothed_rtt = zero_f;
    smoothed_offset = zero_f;
    drift_ms = zero_f;
    prev_t1 = pos 0;
    prev_t2 = pos 0;
    prev_t3 = pos 0;
    has_prev = false;
  }
