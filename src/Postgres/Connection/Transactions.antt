-- ===== src/Postgres/Connection/Transactions.antt =====
-- The transaction calls of a PostgreSQL object: the texts that it sends for them.
use storm_byte_database.Prelude.{
  ◌≡◌, refl, Bool, false, inl, inr, ℕ, Option, none, some, List, [], ◌∷◌, Text, text, text_eq,
  arith, Action, is_some, Bool-cases, if◌then◌else◌,
}
use storm_byte_database.Prelude.Words.{c_string, take}
use storm_byte_database.Rows.{Iterable}
use storm_byte_database.Database.{IsolationLevel, Level, debug, write_log}
use storm_byte_database.Session.Sending.{Sent, Sends, commit_whole, rollback_whole}
use storm_byte_database.Session.Ends.{OneBegin, is_begin, is_end, count}
use storm_byte_database.Postgres.Client.{Call, executes, Client}
use storm_byte_database.Postgres.Members.{Postgres, call}
use storm_byte_database.Postgres.Query.{usable, silent_result, silent_on, do_silent_query}
use storm_byte_database.Postgres.Connection.{begin_sql, do_begin, backend}

-- A query is sent where a connection may be used.
abbrev pub reaches : Postgres → Bool
reaches db = if db.connected then is_some db.own.conn else false

-- The texts of `PQexec`, newest first.
unfoldable pub sent : List Call → List Text
sent [] = []
sent (executes h sql ∷ calls) = sql ∷ sent calls
sent (_ ∷ calls) = sent calls

abbrev pub begins_by : IsolationLevel → List Text
begins_by level = begin_sql level ∷ []

write_log-same :
    (l : Level) (pieces : List Text) (db : Postgres)
    → let db' = (write_log l pieces db).1 in
      (db'.connected ≡ db.connected) × (db'.own ≡ db.own) × (db'.env ≡ db.env)
unfolding write_log
write_log-same l pieces db = ground arith

module _ (c : Client) where
  silent_result-sent :
      (conn : ℕ) (res : Option ℕ) (db : Postgres)
      → let db' = (silent_result c conn res db).1 in
        (db'.connected ≡ db.connected) × (db'.own ≡ db.own) × (sent db'.env ≡ sent db.env)
  unfolding silent_result sent write_log
  silent_result-sent conn none db = (refl, refl, refl)
  silent_result-sent conn (some r) db = ground arith

  silent_on-sent :
      (o : Option ℕ) (sql : Text) (db : Postgres)
      → c_string sql ≡ sql
      → let db' = (silent_on c o sql db).1 in
        (db'.connected ≡ db.connected)
        × (db'.own ≡ db.own)
        × (sent db'.env ≡ (if is_some o then sql ∷ sent db.env else sent db.env))
  unfolding silent_on sent
  silent_on-sent none sql db whole = (refl, refl, refl)
  silent_on-sent (some h) sql db whole =
      let asked : Postgres = (call (executes h (c_string sql)) db).1 in
      ground (arith, silent_result-sent h (c.exec db.env h (c_string sql)) asked, whole)

  do_silent_query-Sent :
      (sql : Text) (db : Postgres)
      → c_string sql ≡ sql
      → Sent reaches sent (sql ∷ []) db (do_silent_query c sql db).1
  unfolding do_silent_query
  do_silent_query-Sent sql db whole =
      let line : List Text = text "Executing silent query: " ∷ sql ∷ [] in
      let d : Postgres = (write_log debug line db).1 in
      let (z, o, e) = write_log-same debug line db in
      elim (Bool-cases db.connected) [
        | inl on ↦ ground (arith, z, o, e, silent_on-sent (usable c d) sql d whole)
        | inr off ↦ ground (arith, z, o, e, silent_on-sent (usable c d) sql d whole)
      ]

  begin_whole : (level : IsolationLevel) → c_string (begin_sql level) ≡ begin_sql level
  unfolding begin_sql text c_string
  begin_whole IsolationLevel.default = refl
  begin_whole IsolationLevel.read_uncommitted = refl
  begin_whole IsolationLevel.read_committed = refl
  begin_whole IsolationLevel.repeatable_read = refl
  begin_whole IsolationLevel.serializable = refl

  -- The contract of transactions, filled by the backend.
  pub backend-Sends :
      (pre_connect post_connect post_disconnect : Action Postgres (Unit {0})) (it : Iterable)
      → Sends reaches sent (backend c pre_connect post_connect post_disconnect it) begins_by
  unfolding backend do_begin
  backend-Sends pre_connect post_connect post_disconnect it = record {
    reaches_own = λ db db' k o. ground (arith, k, o);
    begin_sends = λ level db. do_silent_query-Sent (begin_sql level) db (begin_whole level);
    commit_sends = λ db. do_silent_query-Sent (text "COMMIT;") db commit_whole;
    rollback_sends = λ db. do_silent_query-Sent (text "ROLLBACK;") db rollback_whole;
  }

pub begins_by-OneBegin : OneBegin begins_by
unfolding begin_sql count is_begin is_end text text_eq take
begins_by-OneBegin IsolationLevel.default = (refl, refl)
begins_by-OneBegin IsolationLevel.read_uncommitted = (refl, refl)
begins_by-OneBegin IsolationLevel.read_committed = (refl, refl)
begins_by-OneBegin IsolationLevel.repeatable_read = (refl, refl)
begins_by-OneBegin IsolationLevel.serializable = (refl, refl)
