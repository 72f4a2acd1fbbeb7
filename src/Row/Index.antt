-- ===== src/Row/Index.antt =====
-- What the name index holds: the first position of every name.
use storm_byte_database.Prelude.{
  ℕ, zero, suc, ◌+◌, ◌≤◌, ◌≡◌, refl, Text, text_eq, Option, none, some, List, [], ◌∷◌, ◌++◌, arith,
  get_elem?, set, length, lookup, emplace, lookup-emplace, eq_of_text_eq, if◌then◌else◌,
}
use storm_byte_database.Value.{Value}
use storm_byte_database.Row.{NamedValue, index_from}

-- The first column of this name, counted from `i`.
pub first_named : ℕ → Text → List NamedValue → Option ℕ
first_named i name [] = none
first_named i name (c ∷ cs) = if text_eq c.name name then some i else first_named (suc i) name cs

pub first_named-nil : (i : ℕ) (name : Text) → first_named i name [] ≡ none
unfolding first_named
first_named-nil i name = refl

pub lookup-index_from :
    (i : ℕ) (cs : List NamedValue) (m : List (Text × ℕ)) (name : Text)
    → lookup name (index_from i cs m)
      ≡ (elim (lookup name m) [ some j ↦ some j | none ↦ first_named i name cs ])
unfolding index_from first_named
lookup-index_from i [] m name = ground arith
lookup-index_from i (c ∷ cs) m name =
    ground (
      arith,
      lookup-index_from (suc i) cs (emplace c.name i m) name,
      lookup-emplace c.name name i m,
    )

-- Appending leaves the first column of a name, or makes the new column the first.
pub first_named-append :
    (i : ℕ) (name : Text) (cs : List NamedValue) (c : NamedValue)
    → first_named i name (cs ++ c ∷ []) ≡ (elim (first_named i name cs) [
      | some j ↦ some j
      | none ↦ if text_eq c.name name then some (i + length cs) else none
    ])
unfolding first_named
first_named-append i name [] c = ground arith
first_named-append i name (d ∷ cs) c = ground (arith, first_named-append (suc i) name cs c)

-- The names alone decide.
pub first_named-set :
    (i j : ℕ) (name : Text) (cs : List NamedValue) (c : NamedValue) (v : Value)
    → get_elem? cs j ≡ some c
    → first_named i name (set cs j (record c { value = v })) ≡ first_named i name cs
unfolding first_named
first_named-set i j name [] c v h = ground arith
first_named-set i zero name (d ∷ cs) c v h = ground arith
first_named-set i (suc j) name (d ∷ cs) c v h =
    ground (arith, first_named-set (suc i) j name cs c v h)

first_named-le :
    (i j : ℕ) (name : Text) (cs : List NamedValue) → first_named i name cs ≡ some j → i ≤ j
unfolding first_named
first_named-le i j name [] h = ground arith
first_named-le i j name (c ∷ cs) h = ground (arith, first_named-le (suc i) j name cs)

-- A position that is found holds a column of that name.
abbrev pub Holds : Text → Option NamedValue → Type 0
Holds name none = ⊥
Holds name (some c) = c.name ≡ name

pub first_named-Holds :
    (i k j : ℕ) (name : Text) (cs : List NamedValue)
    → first_named i name cs ≡ some j
    → j ≡ i + k
    → Holds name (get_elem? cs k)
unfolding first_named
first_named-Holds i k j name [] h e = ground arith
first_named-Holds i zero j name (c ∷ cs) h e =
    ground (arith, first_named-le (suc i) j name cs, eq_of_text_eq c.name name)
first_named-Holds i (suc k) j name (c ∷ cs) h e =
    ground (arith, first_named-Holds (suc i) k j name cs)
