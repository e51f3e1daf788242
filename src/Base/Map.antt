-- ===== src/Base/Map.antt =====
-- A Go map with string keys as an association list with one entry for each key.
use Prim.Native.String.{String}
use mathlib.Core.Path.{◌≡◌, refl}
use mathlib.Core.Option.{Option, none, some}
use mathlib.Core.List.{List, [], ◌∷◌}
use mathlib.Core.Logic.{◌≢◌}
use text.Mathlib.TextPositions.{eq_refl}
use native.Mathlib.Omega.{arith}
use text.Mathlib.Text.{◌==◌ as str_eq}
use text.Mathlib.TextEquality.{eq_iff}
use vibe_sync.Base.Tests.{if◌then◌else◌}

module _ {ℓ} {Entry : Type ℓ} where
  unfoldable pub lookup : String → List (String × Entry) → Option Entry
  lookup key [] = none
  lookup key ((used, e) ∷ rest) = if str_eq used key then some e else lookup key rest

  -- The entry of a key that is there keeps its place.
  unfoldable pub insert : String → Entry → List (String × Entry) → List (String × Entry)
  insert key e [] = (key, e) ∷ []
  insert key e ((used, old) ∷ rest) =
      let after = insert key e rest in
      if str_eq used key then (key, e) ∷ rest else (used, old) ∷ after

  pub lookup-insert :
      (key other : String) (e : Entry) (entries : List (String × Entry))
      → lookup other (insert key e entries)
        ≡ (if str_eq key other then some e else lookup other entries)
  unfolding lookup insert
  lookup-insert key other e [] = refl
  lookup-insert key other e ((used, old) ∷ rest) =
      let tail = lookup-insert key other e rest in
      ground (arith, tail, eq_iff used other, eq_iff used key, eq_iff key other)

  pub lookup-insert_self :
      (key : String) (e : Entry) (entries : List (String × Entry))
      → lookup key (insert key e entries) ≡ some e
  lookup-insert_self key e entries = ground (arith, lookup-insert key key e entries, eq_refl key)

  pub lookup-insert_other :
      (key other : String) (e : Entry) (entries : List (String × Entry))
      → other ≢ key
      → lookup other (insert key e entries) ≡ lookup other entries
  lookup-insert_other key other e entries n =
      ground (arith, lookup-insert key other e entries, eq_iff key other)
