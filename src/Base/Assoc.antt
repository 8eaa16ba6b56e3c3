-- ===== src/Base/Assoc.antt =====
-- A Go map with string keys, as an association list. Insertion replaces an entry in its place, so
-- that the order of the entries is one of the orders in which Go may range over the map.
use Prim.Native.String.{String}
use mathlib.Core.Path.{◌≡◌, refl}
use mathlib.Core.Bool.{Bool, true, false, ◌||◌}
use mathlib.Core.Option.{Option, none, some}
use mathlib.Core.List.{List, [], ◌∷◌}
use native.Mathlib.Omega.{arith}
use text.Mathlib.Text.{◌==◌ as str_eq}
use text.Mathlib.TextEquality.{eq_iff}
use hy_panel.Base.Tests.{if◌then◌else◌}

abbrev pub Assoc {ℓ} : Type ℓ → Type ℓ
Assoc V = List (String × V)

module _ {ℓ} {V : Type ℓ} where
  unfoldable pub lookup : String → Assoc V → Option V
  lookup key [] = none
  lookup key ((own, x) ∷ rest) = if str_eq own key then some x else lookup key rest

  unfoldable pub remove : String → Assoc V → Assoc V
  remove key [] = []
  remove key ((own, x) ∷ rest) =
      let kept = remove key rest in if str_eq own key then kept else (own, x) ∷ kept

  unfoldable pub insert : String → V → Assoc V → Assoc V
  insert key x [] = (key, x) ∷ []
  insert key x ((own, y) ∷ rest) =
      if str_eq own key then (key, x) ∷ rest else (own, y) ∷ insert key x rest

  -- Ranging over a map and writing each of its entries into another one.
  unfoldable pub overlay : Assoc V → Assoc V → Assoc V
  unfolding insert
  overlay [] m = m
  overlay ((k, v) ∷ rest) m = insert k v (overlay rest m)

  pub lookup-remove :
      (key other : String) (entries : Assoc V)
      → lookup other (remove key entries)
        ≡ (if str_eq key other then none else lookup other entries)
  unfolding remove lookup
  lookup-remove key other [] = ground arith
  lookup-remove key other ((own, x) ∷ rest) =
      let ih = lookup-remove key other rest in
      ground (arith, ih, eq_iff own other, eq_iff key other, eq_iff own key)

  pub lookup-insert :
      (key other : String) (x : V) (entries : Assoc V)
      → lookup other (insert key x entries)
        ≡ (if str_eq key other then some x else lookup other entries)
  unfolding insert lookup
  lookup-insert key other x [] = refl
  lookup-insert key other x ((own, y) ∷ rest) =
      let ih = lookup-insert key other x rest in
      ground (arith, ih, eq_iff own other, eq_iff own key, eq_iff key other)

  pub lookup-empty : (k : String) → lookup k [] ≡ none
  unfolding lookup
  lookup-empty k = refl

  -- No key twice: what a Go map guarantees.
  abbrev pub HasUniqueKeys : Assoc V → Type ℓ
  HasUniqueKeys [] = Unit
  HasUniqueKeys ((k, v) ∷ m) = (lookup k m ≡ none) × HasUniqueKeys m

  pub insert-HasUniqueKeys :
      (k : String) (v : V) (m : Assoc V) → HasUniqueKeys m → HasUniqueKeys (insert k v m)
  unfolding insert lookup
  insert-HasUniqueKeys k v [] h = (refl, tt)
  insert-HasUniqueKeys k v ((j, w) ∷ m) h =
      ground (arith, eq_iff j k, eq_iff k j, lookup-insert k j v m, insert-HasUniqueKeys k v m h.1)

  pub remove-HasUniqueKeys :
      (k : String) (m : Assoc V) → HasUniqueKeys m → HasUniqueKeys (remove k m)
  unfolding remove
  remove-HasUniqueKeys k [] h = tt
  remove-HasUniqueKeys k ((j, w) ∷ m) h =
      ground (arith, lookup-remove k j m, remove-HasUniqueKeys k m h.1)

-- Membership of a key in a Go set of strings that was filled from a slice.
abbrev pub has_string : String → List String → Bool
has_string k [] = false
has_string k (j ∷ js) = str_eq j k || has_string k js

abbrev pub is_some {ℓ} : {A : Type ℓ} → Option A → Bool
is_some none = false
is_some (some a) = true
