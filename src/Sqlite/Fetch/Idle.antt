-- ===== src/Sqlite/Fetch/Idle.antt =====
-- `StepResults` neither gives out nor takes back a handle.
use storm_byte_database.Prelude.{ℕ, zero, suc, refl, inl, inr, Option, none, some, List, [], ◌∷◌}
use storm_byte_database.Rows.{Rows, Iterable}
use storm_byte_database.Sqlite.Client.{Call, steps, finalized, Client}
use storm_byte_database.Sqlite.Client.Counts.{given, taken, prepared, Idle}
use storm_byte_database.Sqlite.Fetch.{step_loop, step_results}
use storm_byte_database.Sqlite.Fetch.Steps.{StepCode-cases}

module _ (c : Client) (it : Iterable) where
  step_loop-Idle :
      (fuel s : ℕ) (rows : Rows) (calls : List Call)
      → Idle c calls (step_loop c it fuel s rows calls).1
  unfolding step_loop given taken prepared finalized
  step_loop-Idle zero s rows calls = (refl, refl, refl, refl)
  step_loop-Idle (suc fuel) s rows calls = elim (StepCode-cases (c.step calls s)) [
    | inl e ↦ rw (e, step_loop) (step_loop-Idle fuel s _ (steps s ∷ calls))
    | inr (inl e) ↦ rw (e, step_loop) (refl, refl, refl, refl)
    | inr (inr e) ↦ rw (e, step_loop) (refl, refl, refl, refl)
  ]

  pub step_results-Idle :
      (stmt : Option ℕ) (calls : List Call) → Idle c calls (step_results c it stmt calls).1
  unfolding step_results
  step_results-Idle none calls = (refl, refl, refl, refl)
  step_results-Idle (some s) calls = step_loop-Idle (suc (c.rows_left calls s)) s [] calls
