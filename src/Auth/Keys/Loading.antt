-- ===== src/Auth/Keys/Loading.antt =====
-- The keys that a signer verifies with when a process starts.
use vibe_sync.Base.{
  ◌≡◌, refl, Bool, true, false, not, ◌&&◌, ◌||◌, Bool-cases, Option-cases, inl, inr, Option, none,
  some, String, str_eq, eq_iff, List, [], ◌∷◌, arith, lookup, insert, lookup-insert,
}
use vibe_sync.Auth.Keys.{Crypto, load_retired}
use vibe_sync.Auth.KeyTable.{SigningKey, is_verifiable, place, list_verifiable}
use vibe_sync.Auth.Keys.Rotation.{has_kid}

abbrev pub is_key : Option String → String → Bool
is_key none key = false
is_key (some j) key = str_eq j key

-- A row with this id is verifiable, and its stored form parses to this key.
abbrev pub holds_key : Crypto → String → String → SigningKey → Bool
holds_key c kid key k =
    not (str_eq k.kid kid) || (is_verifiable k.status && is_key (c.from_jwk k.public_jwk) key)

unfoldable pub all_hold : Crypto → String → String → List SigningKey → Bool
all_hold c kid key [] = true
all_hold c kid key (k ∷ ks) = holds_key c kid key k && all_hold c kid key ks

abbrev lookup_in : String → Option (List (String × String)) → Option String
lookup_in kid none = none
lookup_in kid (some vs) = lookup kid vs

module _ (c : Crypto) (kid key : String) where
  place-hold :
      (k : SigningKey) (ks : List SigningKey)
      → holds_key c kid key k ≡ true
      → all_hold c kid key ks ≡ true
      → all_hold c kid key (place k ks) ≡ true
  unfolding all_hold place
  place-hold k [] h t = ground (arith, h)
  place-hold k (o ∷ os) h t = ground (arith, h, t, place-hold k os h)

  has_kid-place :
      (k : SigningKey) (ks : List SigningKey)
      → has_kid kid (place k ks) ≡ (str_eq k.kid kid || has_kid kid ks)
  unfolding has_kid place
  has_kid-place k [] = refl
  has_kid-place k (o ∷ os) = ground (arith, has_kid-place k os)

  pub list_verifiable-hold :
      (ks : List SigningKey)
      → all_hold c kid key ks ≡ true
      → all_hold c kid key (list_verifiable ks) ≡ true
  unfolding all_hold list_verifiable
  list_verifiable-hold [] h = refl
  list_verifiable-hold (k ∷ ks) h =
      ground (arith, h, list_verifiable-hold ks, place-hold k (list_verifiable ks))

  pub has_kid-list_verifiable :
      (ks : List SigningKey)
      → all_hold c kid key ks ≡ true
      → has_kid kid ks ≡ true
      → has_kid kid (list_verifiable ks) ≡ true
  unfolding all_hold has_kid list_verifiable
  has_kid-list_verifiable [] h n = n
  has_kid-list_verifiable (k ∷ ks) h n =
      ground (arith, h, n, has_kid-list_verifiable ks, has_kid-place k (list_verifiable ks))

  load-none : (skip : String) (ks : List SigningKey) → load_retired c skip ks none ≡ none
  unfolding load_retired
  load-none skip [] = refl
  load-none skip (k ∷ ks) = elim (Option-cases (c.from_jwk k.public_jwk)) [
    | inl e ↦ ground (arith, e, load-none skip ks)
    | inr (x, e) ↦ ground (arith, e, load-none skip ks)
  ]

  -- What is there stays, if the rows of this id are skipped or hold the same key.
  pub load-keeps :
      (skip : String) (ks : List SigningKey) (made vs : List (String × String))
      → (str_eq kid skip || all_hold c kid key ks) ≡ true
      → lookup kid made ≡ some key
      → load_retired c skip ks (some made) ≡ some vs
      → lookup kid vs ≡ some key
  unfolding load_retired all_hold
  load-keeps skip [] made vs h l e = ground (arith, l, e)
  load-keeps skip (k ∷ ks) made vs h l e = elim (Bool-cases (str_eq k.kid skip)) [
    | inl out ↦ load-keeps skip ks made vs (ground (arith, h)) l (ground (arith, out, e))
    | inr taken ↦ elim (Option-cases (c.from_jwk k.public_jwk)) [
      | inl bad ↦ absurd (ground (arith, taken, bad, e, load-none skip ks))
      | inr (x, parsed) ↦
          load-keeps skip ks (insert k.kid x made) vs (ground (arith, h))
            (ground (
              arith,
              l,
              h,
              taken,
              parsed,
              lookup-insert k.kid kid x made,
              eq_iff k.kid kid,
              eq_iff kid skip,
              eq_iff k.kid skip,
              eq_iff x key,
            ))
            (ground (arith, taken, parsed, e))
    ]
  ]

  pub load-finds :
      (skip : String) (ks : List SigningKey) (made vs : List (String × String))
      → str_eq kid skip ≡ false
      → all_hold c kid key ks ≡ true
      → has_kid kid ks ≡ true
      → load_retired c skip ks (some made) ≡ some vs
      → lookup kid vs ≡ some key
  unfolding load_retired all_hold has_kid
  load-finds skip [] made vs n h f e = absurd (ground (arith, f))
  load-finds skip (k ∷ ks) made vs n h f e = elim (Bool-cases (str_eq k.kid kid)) [
    | inr other ↦ elim (Bool-cases (str_eq k.kid skip)) [
      | inl out ↦
          load-finds skip ks made vs n (ground (arith, h)) (ground (arith, f, other))
            (ground (arith, out, e))
      | inr taken ↦ elim (Option-cases (c.from_jwk k.public_jwk)) [
        | inl bad ↦ absurd (ground (arith, taken, bad, e, load-none skip ks))
        | inr (x, parsed) ↦
            load-finds skip ks (insert k.kid x made) vs n (ground (arith, h))
              (ground (arith, f, other)) (ground (arith, taken, parsed, e))
      ]
    ]
    | inl this ↦ elim (Option-cases (c.from_jwk k.public_jwk)) [
      | inl bad ↦ absurd (ground (arith, h, this, bad))
      | inr (x, parsed) ↦
          load-keeps skip ks (insert k.kid x made) vs (ground (arith, h))
            (ground (arith, h, this, parsed, lookup-insert k.kid kid x made, eq_iff x key))
            (ground
              (arith, n, this, parsed, e, eq_iff k.kid kid, eq_iff kid skip, eq_iff k.kid skip))
    ]
  ]
