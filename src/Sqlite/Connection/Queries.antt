-- ===== src/Sqlite/Connection/Queries.antt =====
-- `Query` of SQLite and the statement that it prepares.
use storm_byte_database.Prelude.{
  ℕ, ◌+◌, ◌≡◌, ◌∙◌, ap, true, inl, inr, Option, none, some, List, [], ◌∷◌, Text, text, arith,
  Bool-cases,
}
use storm_byte_database.Prelude.Words.{c_string}
use storm_byte_database.Rows.{Iterable}
use storm_byte_database.Database.{debug, write_log}
use storm_byte_database.Sqlite.Client.{prepares, finalized, Client, Env}
use storm_byte_database.Sqlite.Fetch.Steps.{step_results-finalized}
use storm_byte_database.Sqlite.Members.{Own, Sqlite, call}
use storm_byte_database.Sqlite.Query.{run_prepared, prepare_failed, query}
use storm_byte_database.Sqlite.Connection.Lifecycle.{write_log-same}

abbrev pub one_if_some : Option ℕ → ℕ
one_if_some none = 0
one_if_some (some s) = 1

module _ (c : Client) (it : Iterable) where
  -- The statement that `sqlite3_prepare_v2` gives to a query.
  abbrev pub given : Text → Sqlite → Option ℕ
  given sql db = (c.prepare db.env.calls db.own.database (c_string sql)).1

  run_prepared-finalized :
      (stmt : Option ℕ) (db : Sqlite)
      → finalized (run_prepared c it stmt db).1.env.calls
        ≡ finalized db.env.calls + one_if_some stmt
  unfolding run_prepared finalized
  run_prepared-finalized none db = omega (arith, step_results-finalized c it none db.env.calls)
  run_prepared-finalized (some s) db =
      omega (arith, step_results-finalized c it (some s) db.env.calls)

  prepare_failed-finalized :
      (h stmt : Option ℕ) (db : Sqlite)
      → finalized (prepare_failed c it h stmt db).1.env.calls
        ≡ finalized db.env.calls + one_if_some stmt
  unfolding prepare_failed finalized
  prepare_failed-finalized h none db = omega arith
  prepare_failed-finalized h (some s) db = omega arith

  -- On a connected SQLite object Query finalizes the statement that it was given, if it was given one, and
  -- no other, on the error paths too.
  pub query-finalized :
      (sql : Text) (db : Sqlite)
      → db.connected ≡ true
      → finalized (query c it sql db).1.env.calls
        ≡ finalized db.env.calls + one_if_some (given sql db)
  unfolding query finalized
  query-finalized sql db on =
      let line : List Text = text "Executing query: " ∷ sql ∷ [] in
      let d : Sqlite = (write_log debug line db).1 in
      let (a, b, e, m) = write_log-same debug line db in
      let z : d.connected ≡ true = a ∙ on in
      let k : Sqlite = (call (prepares d.own.database (c_string sql)) d).1 in
      let same : one_if_some (given sql d) ≡ one_if_some (given sql db) =
        ap (λ (v : Env). one_if_some (c.prepare v.calls d.own.database (c_string sql)).1) e
        ∙ ap (λ (o : Own). one_if_some (c.prepare db.env.calls o.database (c_string sql)).1) b in
      let calls : finalized d.env.calls ≡ finalized db.env.calls =
        ap (λ (v : Env). finalized v.calls) e in
      elim (Bool-cases (c.prepare d.env.calls d.own.database (c_string sql)).0) [
        | inl g ↦ rw (z, g) (run_prepared-finalized (given sql d) k ∙ omega (arith, same, calls))
        | inr g ↦
            rw (z, g)
              (prepare_failed-finalized d.own.database (given sql d) k ∙ omega (arith, same, calls))
      ]
