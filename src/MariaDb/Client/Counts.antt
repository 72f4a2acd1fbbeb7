-- ===== src/MariaDb/Client/Counts.antt =====
-- What the MariaDB connector gave out and took back, by the calls.
use storm_byte_database.Prelude.{ℕ, suc, ◌+◌, ◌≡◌, ◌∙◌, List, [], ◌∷◌, is_some, one_if}
use storm_byte_database.MariaDb.Client.{Call, initializes, inits_stmt, closes, closes_stmt, Client}

-- How often `mysql_close` was called.
unfoldable pub closed : List Call → ℕ
closed [] = 0
closed (closes h ∷ calls) = suc (closed calls)
closed (_ ∷ calls) = closed calls

-- How many handles `mysql_init` gave out.
unfoldable pub given : Client → List Call → ℕ
given c [] = 0
given c (initializes ∷ calls) = one_if (is_some (c.init calls)) + given c calls
given c (_ ∷ calls) = given c calls

-- How often `mysql_stmt_close` was called.
unfoldable pub stmts_closed : List Call → ℕ
stmts_closed [] = 0
stmts_closed (closes_stmt s ∷ calls) = suc (stmts_closed calls)
stmts_closed (_ ∷ calls) = stmts_closed calls

-- How many handles `mysql_stmt_init` gave out.
unfoldable pub stmts_given : Client → List Call → ℕ
stmts_given c [] = 0
stmts_given c (inits_stmt h ∷ calls) = one_if (is_some (c.stmt_init calls h)) + stmts_given c calls
stmts_given c (_ ∷ calls) = stmts_given c calls

-- No handle of a connection or of a statement was given out or closed.
abbrev pub Idle : Client → List Call → List Call → Type 0
Idle c calls calls' =
    (given c calls' ≡ given c calls)
    × (closed calls' ≡ closed calls)
    × (stmts_given c calls' ≡ stmts_given c calls)
    × (stmts_closed calls' ≡ stmts_closed calls)

pub Idle-further :
    (c : Client) (calls more most : List Call)
    → Idle c calls more
    → Idle c more most
    → Idle c calls most
Idle-further c calls more most (g, t, x, y) (g', t', x', y') = (g' ∙ g, t' ∙ t, x' ∙ x, y' ∙ y)
