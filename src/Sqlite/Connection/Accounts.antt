-- ===== src/Sqlite/Connection/Accounts.antt =====
-- The handles that SQLite gives a database object, against the contract of a database's life.
use storm_byte_database.Prelude.{
  ℕ, ◌+◌, ◌≡◌, refl, ap, Bool, true, false, inl, inr, Option, none, some, List, [], ◌∷◌, Text, text,
  arith, is_some, one_if, Action, Bool-cases,
}
use storm_byte_database.Prelude.Words.{c_string}
use storm_byte_database.Rows.{Iterable}
use storm_byte_database.Database.{low_level, write_log}
use storm_byte_database.Database.Steady.{Steady}
use storm_byte_database.Database.Lifetime.{Still, Still-again, Still-further, Accounts}
use storm_byte_database.Sqlite.Client.{opens, Client, Env}
use storm_byte_database.Sqlite.Client.Counts.{given, taken}
use storm_byte_database.Sqlite.Statement.Idle.{execute-Leaves}
use storm_byte_database.Sqlite.Members.{Own, Sqlite, call, set_database}
use storm_byte_database.Sqlite.Query.{query, do_silent_query, silent_query}
use storm_byte_database.Sqlite.Connection.{
  release_library, acquire_library, opened_well, open_failed, close_handle, open_database,
  connect_new, do_connect, do_disconnect, do_pre_disconnect, do_post_disconnect, destroy_stmt,
  create_stmt, begin_sql, do_begin, backend,
}
use storm_byte_database.Sqlite.Connection.Lifecycle.{owns, OpenGivesHandle}
use storm_byte_database.Sqlite.Connection.Release.{backend-Connects}
use storm_byte_database.Sqlite.Connection.Quiet.{
  Quiet, write_log-Quiet, destroy_stmt-Quiet, do_pre_disconnect-Quiet, do_post_disconnect-Quiet,
  create_stmt-Quiet, do_silent_query-Quiet, query-Quiet,
}

module _ (c : Client) where
  abbrev pub given_by : Env → ℕ
  given_by e = given c e.calls

  abbrev pub taken_by : Env → ℕ
  taken_by e = taken e.calls

  abbrev pub Same : Sqlite → Sqlite → Type 0
  Same = Still owns given_by taken_by

  Quiet-Same : (db db' : Sqlite) → Quiet c db db' → Same db db'
  Quiet-Same db db' (o, k, g, t) = (k, ap (λ (w : Own). is_some w.database) o, g, t)

  -- From an open call on: the handle is owned, or was closed.
  opened_well-takes :
      (h : Option ℕ) (db : Sqlite)
      → db.own.database ≡ h
      → let db' = (opened_well c h db).1 in
        (given_by db'.env ≡ given_by db.env)
        × (taken_by db'.env + one_if (owns db') ≡ taken_by db.env + one_if (is_some h))
  unfolding opened_well write_log given taken
  opened_well-takes h db e = ground (arith, e)

  open_failed-takes :
      (h : Option ℕ) (db : Sqlite)
      → db.own.database ≡ h
      → let db' = (open_failed c h db).1 in
        (given_by db'.env ≡ given_by db.env)
        × (taken_by db'.env + one_if (owns db') ≡ taken_by db.env + one_if (is_some h))
  unfolding open_failed release_library close_handle write_log given taken
  open_failed-takes none db e = ground (arith, e)
  open_failed-takes (some h) db e = ground (arith, e)

  open_database-gives :
      (db : Sqlite)
      → let db' = (open_database c db).1 in
        given_by db'.env + taken_by db.env ≡ given_by db.env + taken_by db'.env + one_if (owns db')
  unfolding open_database given taken
  open_database-gives db =
      let path : Text = c_string db.own.file in
      let a : Bool × Option ℕ = c.open_db db.env.calls path in
      let d : Sqlite = (set_database a.1 (call (opens path) db).1).1 in
      elim (Bool-cases a.0) [
        | inl ok ↦
            rw (ok, open_database)
              (let (g, t) = opened_well-takes a.1 d refl in omega (arith, g, t))
        | inr bad ↦
            rw (bad, open_database)
              (let (g, t) = open_failed-takes a.1 d refl in omega (arith, g, t))
      ]

  acquire_library-Quiet : (db : Sqlite) → Quiet c db (acquire_library c db).1
  unfolding acquire_library write_log given taken
  acquire_library-Quiet db = ground arith

  connect_new-gives :
      (db : Sqlite)
      → owns db ≡ false
      → let db' = (connect_new c db).1 in
        given_by db'.env + taken_by db.env ≡ given_by db.env + taken_by db'.env + one_if (owns db')
  unfolding connect_new
  connect_new-gives db free =
      let d : Sqlite = (acquire_library c db).1 in
      elim (Bool-cases (acquire_library c db).0) [
        | inl up ↦
            rw (up, connect_new) (ground (arith, acquire_library-Quiet db, open_database-gives d))
        | inr down ↦ rw (down, connect_new) (ground (arith, acquire_library-Quiet db))
      ]

  connect_gives :
      (db : Sqlite)
      → db.connected ≡ false
      → owns db ≡ false
      → let db' = (do_connect c db).1 in
        given_by db'.env + taken_by db.env ≡ given_by db.env + taken_by db'.env + one_if (owns db')
  unfolding do_connect
  connect_gives db off free =
      let line : List Text = text "SQLite3::DoConnect enter" ∷ [] in
      let d : Sqlite = (write_log low_level line db).1 in
      ground (arith, write_log-Quiet c low_level line db, connect_new-gives d)

  connect_again :
      (db : Sqlite)
      → db.connected ≡ true
      → let db' = (do_connect c db).1 in
        (given_by db'.env ≡ given_by db.env) × (taken_by db'.env ≡ taken_by db.env)
  unfolding do_connect
  connect_again db on =
      ground (arith, write_log-Quiet c low_level (text "SQLite3::DoConnect enter" ∷ []) db)

  close_handle-takes :
      (o : Option ℕ) (db : Sqlite)
      → let db' = (close_handle o db).1 in
        (given_by db'.env ≡ given_by db.env)
        × (taken_by db'.env ≡ taken_by db.env + one_if (is_some o))
  unfolding close_handle given taken
  close_handle-takes none db = (refl, omega arith)
  close_handle-takes (some h) db = (refl, omega arith)

  disconnect_takes :
      (db : Sqlite)
      → let db' = (do_disconnect db).1 in
        (given_by db'.env ≡ given_by db.env)
        × (taken_by db'.env ≡ taken_by db.env + one_if (owns db))
  unfolding do_disconnect
  disconnect_takes db = close_handle-takes db.own.database db

  module _ (pre post : Action Sqlite (Unit {0})) (it : Iterable) where
    backend-Steady : Steady (backend c pre post it) Same
    unfolding backend do_begin silent_query
    backend-Steady = record {
      again = Still-again owns given_by taken_by;
      further = Still-further owns given_by taken_by;
      logs = λ l pieces db. Quiet-Same db (write_log l pieces db).1 (write_log-Quiet c l pieces db);
      registers = λ m db. (refl, refl, refl, refl);
      creates = λ name sql db.
          Quiet-Same db (create_stmt c name sql db).1 (create_stmt-Quiet c name sql db);
      destroys = λ p db. Quiet-Same db (destroy_stmt p db).1 (destroy_stmt-Quiet c p db);
      runs =
          λ args p db. let (g, t, _, _) = execute-Leaves c it args p db.env in (refl, refl, g, t);
      starts = λ level db.
          Quiet-Same db (do_begin c level db).1 (do_silent_query-Quiet c (begin_sql level) db);
      does = λ sql db. Quiet-Same db (do_silent_query c sql db).1 (do_silent_query-Quiet c sql db);
      asks = λ sql db. Quiet-Same db (query c it sql db).1 (query-Quiet c it sql db);
      tells = λ sql db. Quiet-Same db (do_silent_query c sql db).1 (do_silent_query-Quiet c sql db);
    }

    -- The contract of the life of a database, if the hooks leave the connection alone.
    pub backend-Accounts :
        OpenGivesHandle c
        → ((db : Sqlite) → Same db (pre db).1)
        → ((db : Sqlite) → Same db (post db).1)
        → Accounts owns given_by taken_by (backend c pre post it)
    unfolding backend
    backend-Accounts well kpre kpost = record {
      connection =
          backend-Connects c pre post it well (λ db. ((kpre db).0, (kpre db).1))
            (λ db. ((kpost db).0, (kpost db).1));
      steady = backend-Steady;
      pre_connect_still = kpre;
      post_connect_still = kpost;
      pre_disconnect_still =
          λ db. Quiet-Same db (do_pre_disconnect db).1 (do_pre_disconnect-Quiet c db);
      post_disconnect_still =
          λ db. Quiet-Same db (do_post_disconnect db).1 (do_post_disconnect-Quiet c db);
      connect_again = connect_again;
      connect_gives = connect_gives;
      disconnect_takes = disconnect_takes;
    }
