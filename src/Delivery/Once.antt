-- ===== src/Delivery/Once.antt =====
-- Redeliveries behind the idempotency middleware, and what an error of the handler costs.
use vibe_sync.Base.{
  ◌≡◌, ◌∙◌, Bool, true, false, not, ◌||◌, some, String, str_eq, eq_iff, eq_refl, ℤ, List, [], ◌∷◌,
  arith,
}
use vibe_sync.Delivery.Relay.{Message}
use vibe_sync.Delivery.Idempotency.{Handler, Kv, event_id, key_of, idempotency_middleware, serve}
use vibe_sync.Delivery.Firsts.{elem, HasId}

-- What SET NX promises while no key expires. A call that answers tells whether it set the key,
-- which it does exactly if it was not there, and touches no other key; a call that fails may have
-- set it or not, and takes none away.
pub record KvLaws {S : Type 0} (kv : Kv S) (has : String → S → Bool) : Type 0 where
  pub answers :
      (k v : String) (ttl : ℤ) (s : S) (b : Bool)
      → (kv.set_nx k v ttl s).0 ≡ some b
      → (b ≡ not (has k s)) × ((j : String) → has j (kv.set_nx k v ttl s).1 ≡ str_eq k j || has j s)
  pub keeps :
      (k v : String) (ttl : ℤ) (s : S) (j : String)
      → has j s ≡ true
      → has j (kv.set_nx k v ttl s).1 ≡ true

-- No call of the store fails.
abbrev pub AlwaysAnswers : {S : Type 0} → Kv S → Type 0
AlwaysAnswers {S} kv =
    (k v : String) (ttl : ℤ) (s : S) → (b : Bool) × ((kv.set_nx k v ttl s).0 ≡ some b)

module _ {S A : Type 0} (kv : Kv S) (has : String → S → Bool) (laws : KvLaws kv has)
    (steady : AlwaysAnswers kv) (ttl : ℤ) (next : Handler A) where
  -- The store knows the keys that were seen.
  Knows : List String → S → Type 0
  Knows seen s = (k : String) → has k s ≡ elem k seen

  middle : Message → S → A → S × A
  middle m s a = (idempotency_middleware kv ttl next m (s, a)).1

module _ {S A : Type 0} (kv : Kv S) (has : String → S → Bool) (laws : KvLaws kv has) (ttl : ℤ)
    (next : Handler A) where
  abbrev through : Handler (S × A)
  through = idempotency_middleware kv ttl next

  middle-new :
      (m : Message) (s : S) (a : A)
      → HasId m
      → (kv.set_nx (key_of m) "1" ttl s).0 ≡ some true
      → ((through m (s, a)).0 ≡ (next m a).0) × (has (key_of m) (through m (s, a)).1.0 ≡ true)
  unfolding idempotency_middleware
  middle-new m s a n e =
      let (new, stored) = laws.answers (key_of m) "1" ttl s true e in
      ground (arith, e, stored (key_of m), eq_iff (event_id m) "", eq_refl (key_of m))

  middle-old :
      (m : Message) (s : S) (a : A)
      → HasId m
      → has (key_of m) s ≡ true
      → (said : Bool) → (kv.set_nx (key_of m) "1" ttl s).0 ≡ some said
      → ((through m (s, a)).0 ≡ true) × ((through m (s, a)).1.1 ≡ a)
  unfolding idempotency_middleware
  middle-old m s a n e said answer =
      let (old, stored) = laws.answers (key_of m) "1" ttl s said answer in
      ground (arith, e, old, answer, eq_iff (event_id m) "")

  middle-has :
      (k : String) (m : Message) (s : S) (a : A)
      → has k s ≡ true
      → has k (through m (s, a)).1.0 ≡ true
  unfolding idempotency_middleware
  middle-has k m s a h = ground (arith, h, laws.keeps (key_of m) "1" ttl s k h)

  serve-has :
      (k : String) (ms : List Message) (s : S) (a : A)
      → has k s ≡ true
      → has k (serve through ms (s, a)).0 ≡ true
  unfolding serve
  serve-has k [] s a h = h
  serve-has k (m ∷ ms) s a h =
      serve-has k ms (through m (s, a)).1.0 (through m (s, a)).1.1 (middle-has k m s a h)

-- A message whose key was new to the store when it answered, and whose handler failed, is taken for
-- handled: when it comes again, whatever messages have come between and whatever the store said to
-- them, then while no key expires and if the store answers this time, the middleware answers nil
-- without a run of the handler.
pub failed_once_dropped :
    {S A : Type 0} (kv : Kv S) (has : String → S → Bool) (ttl : ℤ) (next : Handler A) (m : Message)
    (ms : List Message) (s : S) (a : A) (said : Bool)
    → KvLaws kv has
    → HasId m
    → (kv.set_nx (key_of m) "1" ttl s).0 ≡ some true
    → (next m a).0 ≡ false
    → let (first, st) = idempotency_middleware kv ttl next m (s, a) in
      let later = serve (idempotency_middleware kv ttl next) ms st in
      let (again, after) = idempotency_middleware kv ttl next m later in
      (kv.set_nx (key_of m) "1" ttl later.0).0 ≡ some said
      → (first ≡ false) × (again ≡ true) × (after.1 ≡ later.1)
failed_once_dropped kv has ttl next m ms s a said laws n new e answered =
    let (first, known) = middle-new kv has laws ttl next m s a n new in
    let st = (idempotency_middleware kv ttl next m (s, a)).1 in
    let later = serve (idempotency_middleware kv ttl next) ms st in
    let (again, same) =
      middle-old kv has laws ttl next m later.0 later.1 n
        (serve-has kv has laws ttl next (key_of m) ms st.0 st.1 known) said answered in
    (first ∙ e, again, same)
