-- ===== src/Prelude/Texts.antt =====
-- `std::string` as the list of its bytes, its equality, and maps keyed by it.
use Prim.Native.Char.{code}
use Prim.Native.Nat.{ℕ}
use Prim.Native.String.{String}
use mathlib.Core.Path.{◌≡◌, refl}
use mathlib.Core.Bool.{Bool, true, false, ◌&&◌}
use mathlib.Core.List.{List, [], ◌∷◌}
use mathlib.Core.Option.{Option, none, some}
use native.Mathlib.Omega.{arith}
use storm_byte_database.Prelude.Tests.{◌==◌, if◌then◌else◌}

abbrev pub Text : Type 0
Text = List ℕ

-- The bytes of an ASCII literal.
unfoldable pub text : String → Text
text String.[] = []
text (String.◌∷◌ c s) = code c ∷ text s

unfoldable pub text_eq : Text → Text → Bool
text_eq [] [] = true
text_eq [] (d ∷ t) = false
text_eq (c ∷ s) [] = false
text_eq (c ∷ s) (d ∷ t) = (c == d) && text_eq s t

pub text_eq_refl : (s : Text) → text_eq s s ≡ true
unfolding text_eq
text_eq_refl [] = refl
text_eq_refl (c ∷ s) = ground (arith, text_eq_refl s)

pub eq_of_text_eq : (s t : Text) → text_eq s t ≡ true → s ≡ t
unfolding text_eq
eq_of_text_eq [] [] h = refl
eq_of_text_eq [] (d ∷ t) h = ground arith
eq_of_text_eq (c ∷ s) [] h = ground arith
eq_of_text_eq (c ∷ s) (d ∷ t) h = ground (arith, eq_of_text_eq s t)

-- `s.empty()`
abbrev pub is_empty {ℓ} : {A : Type ℓ} → List A → Bool
is_empty [] = true
is_empty (c ∷ s) = false

-- `std::unordered_map<std::string, V>` as an association list.
module _ {ℓ} {V : Type ℓ} where
  -- `find`
  unfoldable pub lookup : Text → List (Text × V) → Option V
  lookup k [] = none
  lookup k ((j, v) ∷ m) = if text_eq j k then some v else lookup k m

  -- `emplace`: an entry that is there already stays.
  unfoldable pub emplace : Text → V → List (Text × V) → List (Text × V)
  emplace k v [] = (k, v) ∷ []
  emplace k v ((j, w) ∷ m) = if text_eq j k then (j, w) ∷ m else (j, w) ∷ emplace k v m

  -- A write through the iterator that `find` returned.
  unfoldable pub store : Text → V → List (Text × V) → List (Text × V)
  store k v [] = []
  store k v ((j, w) ∷ m) = if text_eq j k then (j, v) ∷ m else (j, w) ∷ store k v m

  pub lookup-nil : (k : Text) → lookup k [] ≡ none
  unfolding lookup
  lookup-nil k = refl

  pub lookup-emplace :
      (k j : Text) (v : V) (m : List (Text × V))
      → lookup j (emplace k v m)
        ≡ (elim (lookup j m) [ some w ↦ some w | none ↦ if text_eq k j then some v else none ])
  unfolding lookup emplace
  lookup-emplace k j v [] = refl
  lookup-emplace k j v ((i, w) ∷ m) = ground (
    arith,
    lookup-emplace k j v m,
    eq_of_text_eq i k,
    eq_of_text_eq i j,
    eq_of_text_eq k j,
    text_eq_refl i,
    text_eq_refl j,
    text_eq_refl k,
  )

  pub lookup-store :
      (k j : Text) (v : V) (m : List (Text × V))
      → lookup j (store k v m)
        ≡ (elim (lookup j m) [ none ↦ none | some w ↦ if text_eq k j then some v else some w ])
  unfolding lookup store
  lookup-store k j v [] = refl
  lookup-store k j v ((i, w) ∷ m) = ground (
    arith,
    lookup-store k j v m,
    eq_of_text_eq i k,
    eq_of_text_eq i j,
    eq_of_text_eq k j,
    text_eq_refl i,
    text_eq_refl j,
    text_eq_refl k,
  )
