-- ===== src/MariaDb/Statement/Trimming.antt =====
-- The query that a MariaDB statement prepares: less the spaces at its end, and one semicolon before them.
use storm_byte_database.Prelude.{
  ℕ, ◌≡◌, refl, ap, ◌⊎◌, inl, inr, Text, Bool, ◌==◌, [], ◌∷◌, ◌++◌, arith, Bool-cases,
}
use storm_byte_database.Decimal.{is_space}
use storm_byte_database.Trim.{trim_end, IsTrimmed, EndsWithout, trim_end-IsTrimmed}
use storm_byte_database.MariaDb.Statement.{drop_semicolon, prepared_query}

abbrev pub is_semicolon : ℕ → Bool
is_semicolon c = c == 59

-- `t` is `s` less one semicolon at its end, or `s` where it ends without one.
abbrev pub IsDropped : Text → Text → Type 0
IsDropped s t = (s ≡ t ++ 59 ∷ []) ⊎ ((s ≡ t) × EndsWithout is_semicolon t)

cons-IsDropped : (c d : ℕ) (s t : Text) → IsDropped (d ∷ s) t → IsDropped (c ∷ d ∷ s) (c ∷ t)
cons-IsDropped c d s t (inl e) = inl (ap (◌∷◌ c) e)
cons-IsDropped c d s [] (inr (e, w)) = cc
cons-IsDropped c d s (x ∷ t) (inr (e, w)) = inr (ap (◌∷◌ c) e, w)

drop_semicolon-IsDropped : (s : Text) → IsDropped s (drop_semicolon s)
unfolding drop_semicolon
drop_semicolon-IsDropped [] = inr (refl, tt)
drop_semicolon-IsDropped (c ∷ []) = elim (Bool-cases (c == 59)) [
  | inl e ↦ rw e (inl (ground (arith, e)))
  | inr e ↦ rw e (inr (refl, e))
]
drop_semicolon-IsDropped (c ∷ d ∷ s) =
    cons-IsDropped c d s (drop_semicolon (d ∷ s)) (drop_semicolon-IsDropped (d ∷ s))

-- What is prepared of a query.
abbrev pub IsPreparedOf : Text → Text → Type 0
IsPreparedOf sql q = (t : Text) × IsTrimmed is_space sql t × IsDropped t q

pub prepared_query-IsPreparedOf : (sql : Text) → IsPreparedOf sql (prepared_query sql)
unfolding prepared_query
prepared_query-IsPreparedOf sql = (
  trim_end is_space sql,
  trim_end-IsTrimmed is_space sql,
  drop_semicolon-IsDropped (trim_end is_space sql),
)
