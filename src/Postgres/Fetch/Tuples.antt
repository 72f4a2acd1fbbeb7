-- ===== src/Postgres/Fetch/Tuples.antt =====
-- `StepResults` gives every row of a result, in order.
use storm_byte_database.Prelude.{ℕ, ◌≡◌, refl, true, some}
use storm_byte_database.Exception.{is_ok}
use storm_byte_database.Rows.{Rows, Iterable}
use storm_byte_database.Postgres.Client.{Client}
use storm_byte_database.Postgres.Fetch.{step_results}

pub step_results-is_ok :
    (c : Client) (it : Iterable) (res : ℕ)
    → c.result_ok res ≡ true
    → is_ok (step_results c it (some res)) ≡ true
unfolding step_results
step_results-is_ok c it res h = rw h refl
