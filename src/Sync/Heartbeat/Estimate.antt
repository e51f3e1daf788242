-- ===== src/Sync/Heartbeat/Estimate.antt =====
-- What the estimates of heartbeat.go stand for.
use vibe_sync.Base.{
  ℕ, ◌≡◌, refl, List, [], ◌∷◌, true, false, ℤ, pos, ◌+ℤ◌, ◌-ℤ◌, arith, IsInt64, pos_part, neg_part,
  ◌<ℤ◌, ◌↔◌, sub64, wrap64_eq, int_laws, -ℤ_parts, +ℤ_parts, ◌+◌, ◌≤◌, size_laws,
}
use vibe_sync.Sync.Float.{Float64, zero_f, NonnegLaws, ExactLaws, RateLaws, IsExact}
use vibe_sync.Sync.Heartbeat.{
  ClientHeartbeat, new_heartbeat, update, smooth, rtt_of, offset_of, ewma, is_alive, sub_time,
}

-- One call of `Update`: the three timestamps and the server's time.
pub record Beat : Type 0 where
  pub t1 : ℤ
  pub t2 : ℤ
  pub t3 : ℤ
  pub now : ℤ

-- A client is alive exactly until the timeout has passed since its last heartbeat.
pub is_alive_iff :
    {F : Type 0} ⦃fl : Float64 F⦄ (c : ClientHeartbeat F) (now timeout : ℤ)
    → IsInt64 timeout
    → pos 0 <ℤ timeout
    → (is_alive c now timeout ≡ true) ↔ (now <ℤ c.last_seen +ℤ timeout)
unfolding is_alive sub_time
is_alive_iff c now timeout h p = (
  λ e. ground (arith, -ℤ_parts now c.last_seen, +ℤ_parts c.last_seen timeout),
  λ e. ground (arith, -ℤ_parts now c.last_seen, +ℤ_parts c.last_seen timeout),
)

module _ {F : Type 0} ⦃fl : Float64 F⦄ where
  pub beats : ClientHeartbeat F → List Beat → ClientHeartbeat F
  beats c [] = c
  beats c (b ∷ bs) = beats (update b.t1 b.t2 b.t3 b.now c) bs

  abbrev pub IsNonneg : F → Type 0
  IsNonneg x = fl.lt x zero_f ≡ false

  rtt-IsNonneg : (t4 : ℤ) (c : ClientHeartbeat F) → NonnegLaws fl → IsNonneg (rtt_of t4 c)
  unfolding rtt_of
  rtt-IsNonneg t4 c l = ground (arith, l.zero_nonneg)

  ewma-IsNonneg : (a b : F) → NonnegLaws fl → IsNonneg a → IsNonneg b → IsNonneg (ewma a b)
  unfolding ewma
  ewma-IsNonneg a b l h k =
      l.add_nonneg _ _ (l.mul_nonneg _ _ (l.ratio_nonneg 25 100) h)
        (l.mul_nonneg _ _ (l.ratio_nonneg 75 100) k)

  update-IsNonneg :
      (t1 t2 t3 now : ℤ) (c : ClientHeartbeat F)
      → NonnegLaws fl
      → IsNonneg c.smoothed_rtt
      → IsNonneg (update t1 t2 t3 now c).smoothed_rtt
  unfolding update smooth
  update-IsNonneg t1 t2 t3 now c l h =
      ground (arith, rtt-IsNonneg t1 c l, ewma-IsNonneg (rtt_of t1 c) c.smoothed_rtt l)

  beats-IsNonneg :
      (bs : List Beat) (c : ClientHeartbeat F)
      → NonnegLaws fl
      → IsNonneg c.smoothed_rtt
      → IsNonneg (beats c bs).smoothed_rtt
  unfolding beats
  beats-IsNonneg [] c l h = h
  beats-IsNonneg (b ∷ bs) c l h = beats-IsNonneg bs _ l (update-IsNonneg b.t1 b.t2 b.t3 b.now c l h)

  -- The smoothed round trip of a client is never negative, whatever the clocks report.
  pub smoothed_rtt-IsNonneg :
      (bs : List Beat) → NonnegLaws fl → IsNonneg (beats new_heartbeat bs).smoothed_rtt
  unfolding new_heartbeat
  smoothed_rtt-IsNonneg bs l = beats-IsNonneg bs new_heartbeat l l.zero_nonneg

sub64_exact : (a b z : ℤ) → a -ℤ b ≡ z → IsExact z → sub64 a b ≡ z
unfolding sub64
sub64_exact a b z e h = rw e (wrap64_eq z (omega arith))

-- One exchange: `theta` is how far the server's clock is ahead of the client's, `request` and
-- `response` are the delays on the network, `work` is the server's processing time, and `pause`
-- the time that the client waits, after the response, before it sends the next heartbeat.
pub record Exchange : Type 0 where
  pub t1 : ℤ
  pub theta : ℤ
  pub request : ℕ
  pub work : ℕ
  pub response : ℕ
  pub pause : ℕ

-- The server's clock at the receipt and at the response, the client's at the next heartbeat.
abbrev pub received : Exchange → ℤ
received x = x.t1 +ℤ x.theta +ℤ pos x.request

abbrev pub responded : Exchange → ℤ
responded x = received x +ℤ pos x.work

abbrev pub next_sent : Exchange → ℤ
next_sent x = responded x -ℤ x.theta +ℤ pos x.response +ℤ pos x.pause

abbrev pub IsSmall : Exchange → Type 0
IsSmall x =
    (x.request + x.work + x.response + x.pause ≤ 2251799813685248)
    × (pos_part x.theta + neg_part x.theta ≤ 2251799813685248)

-- Twice the offset that the code computes.
abbrev pub twice_offset : Exchange → ℤ
twice_offset x = x.theta +ℤ x.theta +ℤ pos x.request -ℤ pos (x.response + x.pause)

module _ {F : Type 0} ⦃fl : Float64 F⦄ (x : Exchange) (e : ExactLaws fl) (small : IsSmall x) where
  rtt_lem :
      (c : ClientHeartbeat F)
      → c.prev_t1 ≡ x.t1
      → c.prev_t2 ≡ received x
      → c.prev_t3 ≡ responded x
      → rtt_of (next_sent x) c ≡ fl.of_int (pos (x.request + x.response + x.pause))
  unfolding rtt_of
  rtt_lem c p1 p2 p3 =
      let total = pos (x.request + x.work + x.response + x.pause) in
      let rtt = pos (x.request + x.response + x.pause) in
      rw (p1, p2, p3)
        (ground (
          arith,
          sub64_exact (next_sent x) x.t1 total (omega int_laws) (omega arith),
          sub64_exact (responded x) (received x) (pos x.work) (omega int_laws) (omega arith),
          e.of_int-sub total (pos x.work) rtt (omega arith) (omega arith) (omega arith)
              (omega int_laws),
          e.lt-of_int rtt (pos 0) (omega arith) (omega arith),
        ))

  offset_lem :
      (c : ClientHeartbeat F)
      → c.prev_t1 ≡ x.t1
      → c.prev_t2 ≡ received x
      → c.prev_t3 ≡ responded x
      → offset_of (next_sent x) c ≡ fl.div (fl.of_int (twice_offset x)) (fl.of_int (pos 2))
  unfolding offset_of
  offset_lem c p1 p2 p3 =
      let ahead = x.theta +ℤ pos x.request in
      let behind = x.theta -ℤ pos (x.response + x.pause) in
      rw (p1, p2, p3)
        (cc (
          sub64_exact (received x) x.t1 ahead (omega int_laws) (omega size_laws),
          sub64_exact (responded x) (next_sent x) behind (omega int_laws) (omega size_laws),
          e.of_int-add ahead behind (twice_offset x) (omega size_laws) (omega size_laws)
              (omega size_laws) (omega int_laws),
        ))

  -- The first estimates of a client. The offset is half of twice_offset, so the time that the
  -- client waits before its next heartbeat counts into the round trip, and pulls the offset.
  pub first_estimate :
      (now later t2 t3 : ℤ)
      → RateLaws fl
      → let c : ClientHeartbeat F =
          update
            (next_sent x)
            t2
            t3
            later
            (update x.t1 (received x) (responded x) now new_heartbeat) in
        (c.smoothed_rtt ≡ fl.of_int (pos (x.request + x.response + x.pause)))
        × (c.smoothed_offset ≡ fl.div (fl.of_int (twice_offset x)) (fl.of_int (pos 2)))
  unfolding update smooth new_heartbeat
  first_estimate now later t2 t3 l =
      let c : ClientHeartbeat F = update x.t1 (received x) (responded x) now new_heartbeat in
      ground (arith, l.zero-eq-zero, rtt_lem c refl refl refl, offset_lem c refl refl refl)
