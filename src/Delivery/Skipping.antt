-- ===== src/Delivery/Skipping.antt =====
-- A consumer that goes on after an error of its handler.
use vibe_sync.Base.{ℕ, ◌<◌, ◌≡◌, refl, ap, true, false, List, [], ◌∷◌, ◌++◌, arith}
use vibe_sync.Delivery.Idempotency.{Handler, Fetched, consume}

consume-append :
    {T : Type 0}
    → (h : Handler T) (fs : List Fetched) (g : Fetched) (at : ℕ) (t : T)
    → consume h (fs ++ g ∷ []) at t ≡ consume h (g ∷ []) (consume h fs at t).0 (consume h fs at t).1
unfolding consume
consume-append h [] g at t = refl
consume-append h (f ∷ fs) g at t = consume-append h fs g _ _

-- The consumer goes on after an error: once a later message is committed, the place from which
-- the group reads after a restart is beyond the failed one.
failure_skipped :
    {T : Type 0} (h : Handler T) (f : Fetched) (fs : List Fetched) (g : Fetched) (at : ℕ) (t : T)
    → (h f.message t).0 ≡ false
    → (h g.message (consume h (f ∷ fs) at t).1).0 ≡ true
    → g.commits ≡ true
    → f.offset < g.offset
    → f.offset < (consume h ((f ∷ fs) ++ g ∷ []) at t).0
unfolding consume
failure_skipped {T} h f fs g at t bad good c lt =
    ground (arith, ap (λ (x : ℕ × T). x.0) (consume-append h (f ∷ fs) g at t))
