-- ===== src/Postgres/Client/Counts.antt =====
-- What libpq gave out and took back, by the calls.
use storm_byte_database.Prelude.{ℕ, suc, ◌+◌, ◌≡◌, List, [], ◌∷◌, is_some, one_if}
use storm_byte_database.Postgres.Client.{
  Call, connects, finishes, executes, prepares, executes_prepared, clears, Client,
}

-- How often `PQfinish` was called.
unfoldable pub finished : List Call → ℕ
finished [] = 0
finished (finishes h ∷ calls) = suc (finished calls)
finished (_ ∷ calls) = finished calls

-- How many connections were given out.
unfoldable pub given : Client → List Call → ℕ
given c [] = 0
given c (connects info ∷ calls) = one_if (is_some (c.connectdb calls info)) + given c calls
given c (_ ∷ calls) = given c calls

-- As many connections were given out and finished.
abbrev pub Idle : Client → List Call → List Call → Type 0
Idle c calls calls' = (given c calls' ≡ given c calls) × (finished calls' ≡ finished calls)

-- How many results were given out.
unfoldable pub results_given : Client → List Call → ℕ
results_given c [] = 0
results_given c (executes h sql ∷ calls) =
    one_if (is_some (c.exec calls h sql)) + results_given c calls
results_given c (prepares h name sql ∷ calls) =
    one_if (is_some (c.prepare calls h name sql)) + results_given c calls
results_given c (executes_prepared h name params ∷ calls) =
    one_if (is_some (c.exec_prepared calls h name params)) + results_given c calls
results_given c (_ ∷ calls) = results_given c calls

-- How often `PQclear` was called.
unfoldable pub results_cleared : List Call → ℕ
results_cleared [] = 0
results_cleared (clears r ∷ calls) = suc (results_cleared calls)
results_cleared (_ ∷ calls) = results_cleared calls

-- A result for each clear.
abbrev pub Clears : Client → List Call → List Call → Type 0
Clears c calls calls' =
    results_given c calls' + results_cleared calls ≡ results_given c calls + results_cleared calls'
