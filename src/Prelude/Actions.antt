-- ===== src/Prelude/Actions.antt =====
-- A method call as a function of the state that it changes.
use mathlib.Core.Bool.{Bool}
use storm_byte_database.Prelude.Tests.{if◌then◌else◌}

abbrev pub Action : Type 0 → Type 0 → Type 0
Action S A = S → A × S

module _ {S A : Type 0} where
  abbrev pub pure : A → Action S A
  pure a s = (a, s)

  abbrev pub gets : (S → A) → Action S A
  gets f s = (f s, s)

module _ {S : Type 0} where
  abbrev pub modify : (S → S) → Action S (Unit {0})
  modify f s = (tt, f s)

  -- `if (c) { … }`
  abbrev pub when : Bool → Action S (Unit {0}) → Action S (Unit {0})
  when c m s = if c then m s else (tt, s)

infixl 5 ◌>>=◌ ◌>>◌
abbrev pub ◌>>=◌ : {S A B : Type 0} → Action S A → (A → Action S B) → Action S B
◌>>=◌ m f s = let (a, s') = m s in f a s'

abbrev pub ◌>>◌ : {S A B : Type 0} → Action S A → Action S B → Action S B
m >> k = m >>= λ _. k
