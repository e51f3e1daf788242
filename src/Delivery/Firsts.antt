-- ===== src/Delivery/Firsts.antt =====
-- The first message of each key, in a sequence with redeliveries.
use vibe_sync.Base.{
  ◌≡◌, ◌≢◌, refl, subst, Bool, true, false, ◌||◌, Bool-cases, inl, inr, String, str_eq, eq_iff,
  eq_refl, List, [], ◌∷◌, arith, if◌then◌else◌,
}
use vibe_sync.Delivery.Relay.{Message}
use vibe_sync.Delivery.Idempotency.{event_id, key_of}

abbrev pub elem : String → List String → Bool
elem k [] = false
elem k (j ∷ js) = str_eq j k || elem k js

-- The first message of each key, without the keys that were seen before.
abbrev pub first_of : List String → List Message → List Message
first_of seen [] = []
first_of seen (m ∷ ms) =
    let rest = first_of (key_of m ∷ seen) ms in
    let skip = first_of seen ms in if elem (key_of m) seen then skip else m ∷ rest

abbrev pub keys_of : List Message → List String
keys_of [] = []
keys_of (m ∷ ms) = key_of m ∷ keys_of ms

abbrev pub HasId : Message → Type 0
HasId m = event_id m ≢ ""

-- No key twice.
abbrev pub NoRepeat : List String → Type 0
NoRepeat [] = Unit
NoRepeat (k ∷ ks) = (elem k ks ≡ false) × NoRepeat ks

first_of-fresh :
    (seen : List String) (k : String) (ms : List Message)
    → elem k seen ≡ true
    → elem k (keys_of (first_of seen ms)) ≡ false
first_of-fresh seen k [] h = refl
first_of-fresh seen k (m ∷ ms) h = elim (Bool-cases (elem (key_of m) seen)) [
  | inl t ↦ rw t (first_of-fresh seen k ms h)
  | inr f ↦
      rw f
        (ground (arith, eq_iff (key_of m) k, first_of-fresh (key_of m ∷ seen) k ms (ground arith)))
]

pub first_of-NoRepeat :
    (seen : List String) (ms : List Message) → NoRepeat (keys_of (first_of seen ms))
first_of-NoRepeat seen [] = tt
first_of-NoRepeat seen (m ∷ ms) = elim (Bool-cases (elem (key_of m) seen)) [
  | inl t ↦ rw t (first_of-NoRepeat seen ms)
  | inr f ↦ rw f (
    first_of-fresh (key_of m ∷ seen) (key_of m) ms (ground (arith, eq_refl (key_of m))),
    first_of-NoRepeat (key_of m ∷ seen) ms,
  )
]

pub first_of-elem :
    (seen : List String) (k : String) (ms : List Message)
    → elem k (keys_of ms) ≡ true
    → elem k seen || elem k (keys_of (first_of seen ms)) ≡ true
first_of-elem seen k [] h = cc
first_of-elem seen k (m ∷ ms) h = elim (Bool-cases (elem (key_of m) seen)) [
  | inl t ↦ rw t (elim (Bool-cases (str_eq (key_of m) k)) [
    | inl e ↦
        let same : key_of m ≡ k = ground (arith, eq_iff (key_of m) k) in
        ground (arith, subst (λ j. elem j seen ≡ true) same t)
    | inr other ↦ first_of-elem seen k ms (ground arith)
  ])
  | inr f ↦ rw f (elim (Bool-cases (str_eq (key_of m) k)) [
    | inl same ↦ ground arith
    | inr other ↦ ground (arith, first_of-elem (key_of m ∷ seen) k ms (ground arith))
  ])
]
