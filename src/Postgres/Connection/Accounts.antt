-- ===== src/Postgres/Connection/Accounts.antt =====
-- The connections that libpq gives a PostgreSQL object, against the contract of a database's life.
use storm_byte_database.Prelude.{
  ℕ, ◌+◌, ◌≡◌, refl, ◌∙◌, ap, true, false, Option, none, some, [], ◌∷◌, Text, text, arith, is_some,
  one_if, Action,
}
use storm_byte_database.Prelude.Words.{c_string}
use storm_byte_database.Rows.{Iterable}
use storm_byte_database.Database.{low_level, write_log}
use storm_byte_database.Database.Steady.{Steady}
use storm_byte_database.Database.Lifetime.{Still, Still-again, Still-further, Accounts}
use storm_byte_database.Postgres.Client.{connects, Client}
use storm_byte_database.Postgres.Client.Counts.{finished, given}
use storm_byte_database.Postgres.Statement.Idle.{execute-Idle}
use storm_byte_database.Postgres.Members.{Own, Postgres, call}
use storm_byte_database.Postgres.Query.{query, do_silent_query, silent_query}
use storm_byte_database.Postgres.Connection.{
  conninfo, do_pre_disconnect, finish_conn, do_disconnect, connect_failed, connect_succeeded,
  connect_handle, connect_new, do_connect, create_stmt, begin_sql, do_begin, backend,
}
use storm_byte_database.Postgres.Connection.Lifecycle.{owns, gives_handle, connect_new-Settles}
use storm_byte_database.Postgres.Connection.Contracts.{backend-Connects}
use storm_byte_database.Postgres.Connection.Quiet.{
  Quiet, write_log-Quiet, create_stmt-Quiet, do_silent_query-Quiet, query-Quiet,
}

module _ (c : Client) where
  abbrev pub Same : Postgres → Postgres → Type 0
  Same = Still owns (given c) finished

  Quiet-Same : (db db' : Postgres) → Quiet c db db' → Same db db'
  Quiet-Same db db' (o, k, g, f) = (k, ap (λ (w : Own). is_some w.conn) o, g, f)

  connect_handle-given :
      (o : Option ℕ) (db : Postgres) → given c (connect_handle c o db).1.env ≡ given c db.env
  unfolding connect_handle connect_failed connect_succeeded write_log given
  connect_handle-given none db = ground arith
  connect_handle-given (some h) db = ground arith

  connect_new-given :
      (db : Postgres)
      → given c (connect_new c db).1.env ≡ one_if (gives_handle c db) + given c db.env
  unfolding connect_new given
  connect_new-given db =
      let info : Text = c_string (conninfo db) in
      connect_handle-given (c.connectdb db.env info) (call (connects info) db).1

  abbrev entered : Postgres → Postgres
  entered db = (write_log low_level (text "Postgres::DoConnect enter" ∷ []) db).1

  connect_gives :
      (db : Postgres)
      → db.connected ≡ false
      → owns db ≡ false
      → given c (do_connect c db).1.env + finished db.env
        ≡ given c db.env + finished (do_connect c db).1.env + one_if (owns (do_connect c db).1)
  unfolding do_connect
  connect_gives db off free =
      let d : Postgres = entered db in
      let (o, k, g, f) = write_log-Quiet c low_level (text "Postgres::DoConnect enter" ∷ []) db in
      let z : d.connected ≡ false = k ∙ off in
      let held : owns d ≡ false = ap (λ (w : Own). is_some w.conn) o ∙ free in
      let (x, y, w) = connect_new-Settles c d held in
      rw z (omega (arith, connect_new-given d, ap one_if y, w, g, f))

  connect_again :
      (db : Postgres)
      → db.connected ≡ true
      → (given c (do_connect c db).1.env ≡ given c db.env)
        × (finished (do_connect c db).1.env ≡ finished db.env)
  unfolding do_connect
  connect_again db on =
      ground (arith, write_log-Quiet c low_level (text "Postgres::DoConnect enter" ∷ []) db)

  finish_conn-takes :
      (o : Option ℕ) (db : Postgres)
      → (given c (finish_conn o db).1.env ≡ given c db.env)
        × (finished (finish_conn o db).1.env ≡ finished db.env + one_if (is_some o))
  unfolding finish_conn given finished
  finish_conn-takes none db = (refl, omega arith)
  finish_conn-takes (some h) db = (refl, omega arith)

  disconnect_takes :
      (db : Postgres)
      → (given c (do_disconnect db).1.env ≡ given c db.env)
        × (finished (do_disconnect db).1.env ≡ finished db.env + one_if (owns db))
  unfolding do_disconnect
  disconnect_takes db = finish_conn-takes db.own.conn db

  module _ (pre post closing : Action Postgres (Unit {0})) (it : Iterable) where
    backend-Steady : Steady (backend c pre post closing it) Same
    unfolding backend create_stmt do_begin silent_query
    backend-Steady = record {
      again = Still-again owns (given c) finished;
      further = Still-further owns (given c) finished;
      logs = λ l pieces db. Quiet-Same db (write_log l pieces db).1 (write_log-Quiet c l pieces db);
      registers = λ m db. (refl, refl, refl, refl);
      creates = λ name sql db.
          Quiet-Same db (create_stmt c name sql db).1 (create_stmt-Quiet c name sql db);
      destroys = λ p db. (refl, refl, refl, refl);
      runs = λ args p db. let (g, f) = execute-Idle c it args p db.env in (refl, refl, g, f);
      starts = λ level db.
          Quiet-Same db (do_begin c level db).1 (do_silent_query-Quiet c (begin_sql level) db);
      does = λ sql db. Quiet-Same db (do_silent_query c sql db).1 (do_silent_query-Quiet c sql db);
      asks = λ sql db. Quiet-Same db (query c it sql db).1 (query-Quiet c it sql db);
      tells = λ sql db. Quiet-Same db (do_silent_query c sql db).1 (do_silent_query-Quiet c sql db);
    }

    -- The contract of the life of a database, if the hooks leave the connection alone.
    pub backend-Accounts :
        ((db : Postgres) → Same db (pre db).1)
        → ((db : Postgres) → Same db (post db).1)
        → ((db : Postgres) → Same db (closing db).1)
        → Accounts owns (given c) finished (backend c pre post closing it)
    unfolding backend do_pre_disconnect
    backend-Accounts kpre kpost kclosing = record {
      connection =
          backend-Connects c pre post closing it (λ db. ((kpre db).0, (kpre db).1))
            (λ db. ((kpost db).0, (kpost db).1)) (λ db. ((kclosing db).0, (kclosing db).1));
      steady = backend-Steady;
      pre_connect_still = kpre;
      post_connect_still = kpost;
      pre_disconnect_still = λ db. (refl, refl, refl, refl);
      post_disconnect_still = kclosing;
      connect_again = connect_again;
      connect_gives = connect_gives;
      disconnect_takes = disconnect_takes;
    }
