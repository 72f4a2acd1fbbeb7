-- ===== src/MariaDb/Construct/Idle.antt =====
-- Making a statement opens and closes no connection to MariaDB, and the handle that it gets is kept or closed.
use storm_byte_database.Prelude.{
  ℕ, ◌+◌, ◌≡◌, is_some, one_if, refl, Option, none, some, Text, arith,
}
use storm_byte_database.MariaDb.Client.{inits_stmt, Client}
use storm_byte_database.MariaDb.Client.Counts.{closed, given, stmts_closed, stmts_given}
use storm_byte_database.MariaDb.Members.{MariaDb, call}
use storm_byte_database.MariaDb.Query.Quiet.{Calm}
use storm_byte_database.MariaDb.Construct.{prepare_handle, construct}

module _ (c : Client) where
  prepare_handle-Calm :
      (o : Option ℕ) (sql : Text) (db : MariaDb) → Calm c db (prepare_handle c o sql db).1
  unfolding prepare_handle given closed
  prepare_handle-Calm none sql db = (refl, refl, refl, refl)
  prepare_handle-Calm (some s) sql db = ground arith

  pub construct-Calm :
      (conn : ℕ) (name sql : Text) (db : MariaDb) → Calm c db (construct c conn name sql db).1
  unfolding construct given closed
  construct-Calm conn name sql db =
      prepare_handle-Calm (c.stmt_init db.env conn) sql (call (inits_stmt conn) db).1

  prepare_handle-gives :
      (o : Option ℕ) (sql : Text) (db : MariaDb)
      → let (h, db') = prepare_handle c o sql db in
        (db'.prepared_stmts ≡ db.prepared_stmts)
        × (stmts_given c db'.env ≡ stmts_given c db.env)
        × (stmts_closed db'.env + one_if (is_some h) ≡ stmts_closed db.env + one_if (is_some o))
  unfolding prepare_handle stmts_given stmts_closed
  prepare_handle-gives none sql db = (refl, refl, refl)
  prepare_handle-gives (some s) sql db = ground arith

  -- The handle that a constructor got is that of the statement, or was closed.
  pub construct-gives :
      (h : ℕ) (name sql : Text) (db : MariaDb)
      → let (p, db') = construct c h name sql db in
        (db'.prepared_stmts ≡ db.prepared_stmts)
        × (stmts_given c db'.env + stmts_closed db.env
            ≡ stmts_given c db.env + stmts_closed db'.env + one_if (is_some p.stmt))
  unfolding construct stmts_given stmts_closed
  construct-gives h name sql db =
      let (m, g, t) = prepare_handle-gives (c.stmt_init db.env h) sql (call (inits_stmt h) db).1 in
      (m, omega (arith, g, t))
