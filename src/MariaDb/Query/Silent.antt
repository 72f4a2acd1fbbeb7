-- ===== src/MariaDb/Query/Silent.antt =====
-- What a silent query sends to MariaDB, besides the query for warnings that a logger brings.
use storm_byte_database.Prelude.{
  ℕ, zero, suc, ◌≡◌, refl, ◌∙◌, Bool, true, false, inl, inr, Option, none, some, List, [], ◌∷◌,
  Text, text, text_eq, arith, is_some, Bool-cases, if◌then◌else◌,
}
use storm_byte_database.Database.{Level, debug, write_log}
use storm_byte_database.Session.Sending.{Sent}
use storm_byte_database.MariaDb.Client.{Call, queries, stores_result, Client}
use storm_byte_database.MariaDb.Members.{MariaDb, call}
use storm_byte_database.MariaDb.Query.{
  usable, log_warning, log_warning_rows, log_result, show_warnings, log_warnings, silent_on,
  do_silent_query,
}

-- A query is sent where a connection may be used.
abbrev pub reaches : MariaDb → Bool
reaches db = if db.connected then is_some db.own.conn else false

abbrev pub asks_warnings : Text → Bool
asks_warnings sql = text_eq sql (text "SHOW WARNINGS")

-- The texts of `mysql_real_query` but those that ask for warnings, newest first.
unfoldable pub sent : List Call → List Text
sent [] = []
sent (queries h sql ∷ calls) = if asks_warnings sql then sent calls else sql ∷ sent calls
sent (_ ∷ calls) = sent calls

-- The object, and what was sent, are as they were.
abbrev Unsent : MariaDb → MariaDb → Type 0
Unsent db db' = (db'.connected ≡ db.connected) × (db'.own ≡ db.own) × (sent db'.env ≡ sent db.env)

Unsent-again : (db d db' : MariaDb) → Unsent db d → Unsent d db' → Unsent db db'
Unsent-again db d db' (x, y, z) (x', y', z') = (x' ∙ x, y' ∙ y, z' ∙ z)

write_log-Unsent :
    (l : Level) (pieces : List Text) (db : MariaDb) → Unsent db (write_log l pieces db).1
unfolding write_log
write_log-Unsent l pieces db = ground arith

module _ (c : Client) where
  log_warning-Unsent : (res r : ℕ) (db : MariaDb) → Unsent db (log_warning c res r db).1
  unfolding log_warning sent write_log
  log_warning-Unsent res r db = ground arith

  log_warning_rows-Unsent :
      (res r n : ℕ) (db : MariaDb) → Unsent db (log_warning_rows c res r n db).1
  unfolding log_warning_rows
  log_warning_rows-Unsent res r zero db = (refl, refl, refl)
  log_warning_rows-Unsent res r (suc n) db =
      let d : MariaDb = (log_warning c res r db).1 in
      Unsent-again db d (log_warning_rows c res (suc r) n d).1 (log_warning-Unsent res r db)
        (log_warning_rows-Unsent res (suc r) n d)

  log_result-Unsent : (o : Option ℕ) (db : MariaDb) → Unsent db (log_result c o db).1
  unfolding log_result sent
  log_result-Unsent none db = (refl, refl, refl)
  log_result-Unsent (some res) db = log_warning_rows-Unsent res 0 (c.num_rows res) db

  warnings_asked : asks_warnings (text "SHOW WARNINGS") ≡ true
  unfolding text text_eq
  warnings_asked = refl

  show_warnings-Unsent : (h : ℕ) (db : MariaDb) → Unsent db (show_warnings c h db).1
  unfolding show_warnings sent
  show_warnings-Unsent h db =
      let asked : MariaDb = (call (queries h (text "SHOW WARNINGS")) db).1 in
      let stored : MariaDb = (call (stores_result h) asked).1 in
      ground (arith, log_result-Unsent (c.store_result asked.env h) stored, warnings_asked)

  log_warnings-Unsent : (h : ℕ) (db : MariaDb) → Unsent db (log_warnings c h db).1
  unfolding log_warnings
  log_warnings-Unsent h db = ground (arith, show_warnings-Unsent h db)

  silent_on-sent :
      (o : Option ℕ) (sql : Text) (db : MariaDb)
      → asks_warnings sql ≡ false
      → let db' = (silent_on c o sql db).1 in
        (db'.connected ≡ db.connected)
        × (db'.own ≡ db.own)
        × (sent db'.env ≡ (if is_some o then sql ∷ sent db.env else sent db.env))
  unfolding silent_on sent write_log
  silent_on-sent none sql db other = (refl, refl, refl)
  silent_on-sent (some h) sql db other =
      let asked : MariaDb = (call (queries h sql) db).1 in
      ground (arith, log_warnings-Unsent h asked, other)

  pub do_silent_query-Sent :
      (sql : Text) (db : MariaDb)
      → asks_warnings sql ≡ false
      → Sent reaches sent (sql ∷ []) db (do_silent_query c sql db).1
  unfolding do_silent_query
  do_silent_query-Sent sql db other =
      let line : List Text = text "Executing silent query: " ∷ sql ∷ [] in
      let d : MariaDb = (write_log debug line db).1 in
      elim (Bool-cases db.connected) [
        | inl on ↦
            ground (arith, write_log-Unsent debug line db, silent_on-sent (usable c d) sql d other)
        | inr off ↦
            ground (arith, write_log-Unsent debug line db, silent_on-sent (usable c d) sql d other)
      ]
