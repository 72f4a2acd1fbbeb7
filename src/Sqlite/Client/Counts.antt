-- ===== src/Sqlite/Client/Counts.antt =====
-- What SQLite gave out and took back, by the calls.
use storm_byte_database.Prelude.{ℕ, suc, ◌+◌, ◌≡◌, List, [], ◌∷◌, is_some, one_if}
use storm_byte_database.Sqlite.Client.{Call, opens, closes, prepares, finalized, Client}

-- How many database handles were given out.
unfoldable pub given : Client → List Call → ℕ
given c [] = 0
given c (opens path ∷ calls) = one_if (is_some (c.open_db calls path).1) + given c calls
given c (_ ∷ calls) = given c calls

-- How many were closed.
unfoldable pub taken : List Call → ℕ
taken [] = 0
taken (closes h ∷ calls) = suc (taken calls)
taken (_ ∷ calls) = taken calls

-- How many statement handles were given out.
unfoldable pub prepared : Client → List Call → ℕ
prepared c [] = 0
prepared c (prepares h sql ∷ calls) = one_if (is_some (c.prepare calls h sql).1) + prepared c calls
prepared c (_ ∷ calls) = prepared c calls

-- No handle of a database or of a statement was given out or taken back.
abbrev pub Idle : Client → List Call → List Call → Type 0
Idle c calls calls' =
    (given c calls' ≡ given c calls)
    × (taken calls' ≡ taken calls)
    × (prepared c calls' ≡ prepared c calls)
    × (finalized calls' ≡ finalized calls)
