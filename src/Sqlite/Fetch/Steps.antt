-- ===== src/Sqlite/Fetch/Steps.antt =====
-- `StepResults` runs the statement to its end.
use storm_byte_database.Prelude.{
  ℕ, zero, suc, ◌≡◌, refl, ◌⊎◌, inl, inr, some, none, Option, List, [], ◌∷◌, ◌++◌,
}
use storm_byte_database.Exception.{ok, err}
use storm_byte_database.Columns.{HasColumns}
use storm_byte_database.Row.{Row}
use storm_byte_database.Rows.{Rows, ExpectedRows, Iterable}
use storm_byte_database.Sqlite.Client.{Call, steps, StepCode, row, done, failed, finalized, Client}
use storm_byte_database.Sqlite.Fetch.{
  name_or_empty, column_value, step_error, step_loop, step_results,
}

-- A row with the columns of the statement at these calls, in their order and no others, each under its name and with
-- its value.
abbrev pub IsCurrent : Client → List Call → ℕ → Row → Type 0
IsCurrent c calls s r =
    HasColumns (λ i. name_or_empty (c.column_name calls s i)) (column_value c calls s)
      (c.column_count calls s) r

-- How stepping a statement may go: from the calls and the rows so far to the answer and all calls.
pub data Steps (c : Client) (s : ℕ) (answer : ExpectedRows) (after : List Call)
    : List Call → Rows → Type 0 where
  ends :
      {calls : List Call} {rows : Rows}
      → c.step calls s ≡ done
      → answer ≡ ok rows
      → after ≡ steps s ∷ calls
      → Steps c s answer after calls rows
  fails :
      {calls : List Call} {rows : Rows}
      → c.step calls s ≡ failed
      → answer ≡ err (step_error c (steps s ∷ calls) s)
      → after ≡ steps s ∷ calls
      → Steps c s answer after calls rows
  fetches :
      {calls : List Call} {rows : Rows}
      → c.step calls s ≡ row
      → (r : Row) → IsCurrent c (steps s ∷ calls) s r
      → Steps c s answer after (steps s ∷ calls) (rows ++ r ∷ [])
      → Steps c s answer after calls rows

pub StepCode-cases : (x : StepCode) → (x ≡ row) ⊎ ((x ≡ done) ⊎ (x ≡ failed))
StepCode-cases row = inl refl
StepCode-cases done = inr (inl refl)
StepCode-cases failed = inr (inr refl)

-- Stepping finalizes nothing.
module _ (c : Client) (it : Iterable) where
  step_loop-finalized :
      (fuel s : ℕ) (rows : Rows) (calls : List Call)
      → finalized (step_loop c it fuel s rows calls).1 ≡ finalized calls
  unfolding step_loop finalized
  step_loop-finalized zero s rows calls = refl
  step_loop-finalized (suc fuel) s rows calls = elim (StepCode-cases (c.step calls s)) [
    | inl e ↦ rw (e, step_loop) (step_loop-finalized fuel s _ (steps s ∷ calls))
    | inr (inl e) ↦ rw (e, step_loop) refl
    | inr (inr e) ↦ rw (e, step_loop) refl
  ]

  pub step_results-finalized :
      (stmt : Option ℕ) (calls : List Call)
      → finalized (step_results c it stmt calls).1 ≡ finalized calls
  unfolding step_results
  step_results-finalized none calls = refl
  step_results-finalized (some s) calls = step_loop-finalized (suc (c.rows_left calls s)) s [] calls
