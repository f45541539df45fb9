-- ===== src/Prelude/Maps.antt =====
-- A hash map with text keys, as an association list. The order of its entries stands for the
-- order in which the map is walked, which the source leaves open.
use Prim.Native.String.{String}
use mathlib.Core.Path.{◌≡◌, refl}
use mathlib.Core.Bool.{Bool, true, false}
use mathlib.Core.Option.{Option, none, some}
use mathlib.Core.List.{List, [], ◌∷◌, ◌++◌}
use native.Mathlib.Omega.{arith}
use text.Mathlib.Text.{◌==◌ as str_eq}
use text.Mathlib.TextEquality.{eq_iff}
use agent_workspace.Prelude.Tests.{if◌then◌else◌}

abbrev pub Assoc {ℓ} : Type ℓ → Type ℓ
Assoc V = List (String × V)

module _ {ℓ} {V : Type ℓ} where
  -- `map.get(key)`
  unfoldable pub lookup : String → Assoc V → Option V
  lookup key [] = none
  lookup key ((at, held) ∷ rest) = if str_eq at key then some held else lookup key rest

  -- `map.insert(key, new)`
  unfoldable pub insert : String → V → Assoc V → Assoc V
  insert key new [] = (key, new) ∷ []
  insert key new ((at, held) ∷ rest) =
      if str_eq at key then (key, new) ∷ rest else (at, held) ∷ insert key new rest

  -- `map.remove(key)`
  unfoldable pub remove : String → Assoc V → Assoc V
  remove key [] = []
  remove key ((at, held) ∷ rest) =
      let others = remove key rest in if str_eq at key then others else (at, held) ∷ others

  -- `if let Some(v) = map.get_mut(k) { *v = f(v) }`
  unfoldable pub adjust : String → (V → V) → Assoc V → Assoc V
  adjust k f [] = []
  adjust k f ((j, v) ∷ m) = if str_eq j k then (j, f v) ∷ m else (j, v) ∷ adjust k f m

  pub lookup-insert :
      (key at : String) (new : V) (held : Assoc V)
      → lookup at (insert key new held) ≡ (if str_eq key at then some new else lookup at held)
  unfolding lookup insert
  lookup-insert key at new [] = refl
  lookup-insert key at new ((first, w) ∷ rest) =
      ground
        (arith, eq_iff key at, eq_iff first key, eq_iff first at, lookup-insert key at new rest)

  pub lookup-remove :
      (key at : String) (held : Assoc V)
      → lookup at (remove key held) ≡ (if str_eq key at then none else lookup at held)
  unfolding lookup remove
  lookup-remove key at [] = ground arith
  lookup-remove key at ((first, w) ∷ rest) =
      ground (arith, eq_iff key at, eq_iff first key, eq_iff first at, lookup-remove key at rest)

  pub lookup-adjust :
      (k j : String) (f : V → V) (m : Assoc V)
      → lookup j (adjust k f m) ≡ (
          if str_eq k j
          then elim (lookup j m) [ none ↦ none | some v ↦ some (f v) ]
          else lookup j m)
  unfolding lookup adjust
  lookup-adjust k j f [] = ground arith
  lookup-adjust k j f ((i, v) ∷ m) =
      ground (arith, lookup-adjust k j f m, eq_iff i k, eq_iff i j, eq_iff k j)

-- No key stands twice.
abbrev pub IsUnique {ℓ} : {V : Type ℓ} → Assoc V → Type ℓ
IsUnique [] = Unit
IsUnique ((k, v) ∷ m) = (lookup k m ≡ none) × IsUnique m

module _ {ℓ} {V : Type ℓ} where
  pub lookup-append :
      (j : String) (m n : Assoc V)
      → lookup j (m ++ n) ≡ (elim (lookup j m) [ none ↦ lookup j n | some v ↦ some v ])
  unfolding lookup
  lookup-append j [] n = refl
  lookup-append j ((i, v) ∷ m) n = ground (arith, lookup-append j m n)

  pub IsUnique-remove : (k : String) (m : Assoc V) → IsUnique m → IsUnique (remove k m)
  unfolding remove
  IsUnique-remove k [] u = u
  IsUnique-remove k ((j, v) ∷ m) u =
      ground (arith, IsUnique-remove k m u.1, lookup-remove k j m, eq_iff j k, eq_iff k j)

  pub IsUnique-insert : (k : String) (v : V) (m : Assoc V) → IsUnique m → IsUnique (insert k v m)
  unfolding insert lookup
  IsUnique-insert k v [] u = (refl, tt)
  IsUnique-insert k v ((j, w) ∷ m) u =
      ground (arith, IsUnique-insert k v m u.1, lookup-insert k j v m, eq_iff j k, eq_iff k j)

  pub IsUnique-adjust :
      (k : String) (f : V → V) (m : Assoc V) → IsUnique m → IsUnique (adjust k f m)
  unfolding adjust
  IsUnique-adjust k f [] u = u
  IsUnique-adjust k f ((j, w) ∷ m) u =
      ground (arith, IsUnique-adjust k f m u.1, lookup-adjust k j f m, eq_iff j k, eq_iff k j)

  pub IsUnique-snoc :
      (k : String) (v : V) (m : Assoc V)
      → lookup k m ≡ none
      → IsUnique m
      → IsUnique (m ++ (k, v) ∷ [])
  unfolding lookup
  IsUnique-snoc k v [] e u = (refl, tt)
  IsUnique-snoc k v ((j, w) ∷ m) e u =
      ground (arith, IsUnique-snoc k v m, lookup-append j m ((k, v) ∷ []), eq_iff j k, eq_iff k j)

-- A key's absence, told by a Boolean.
abbrev pub contains {ℓ} : {V : Type ℓ} → String → Assoc V → Bool
contains k m = elim (lookup k m) [ none ↦ false | some v ↦ true ]
