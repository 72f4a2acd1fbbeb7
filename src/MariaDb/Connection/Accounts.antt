-- ===== src/MariaDb/Connection/Accounts.antt =====
-- The connections that MariaDB's connector gives a database object, against the contract of a database's life.
use storm_byte_database.Prelude.{
  ℕ, ◌+◌, ◌≡◌, refl, ◌∙◌, ap, true, false, Option, none, some, List, [], ◌∷◌, Text, text, arith,
  is_some, one_if, Action,
}
use storm_byte_database.Rows.{Iterable}
use storm_byte_database.Database.{IsolationLevel, low_level, write_log}
use storm_byte_database.Database.Steady.{Steady}
use storm_byte_database.Database.Lifetime.{Still, Still-again, Still-further, Accounts}
use storm_byte_database.MariaDb.Client.{SslOption, initializes, Client}
use storm_byte_database.MariaDb.Client.Counts.{closed, given}
use storm_byte_database.MariaDb.Statement.{Stmt}
use storm_byte_database.MariaDb.Output.Idle.{execute-Idle}
use storm_byte_database.MariaDb.Members.{Own, MariaDb, call}
use storm_byte_database.MariaDb.Construct.Idle.{construct-Calm}
use storm_byte_database.MariaDb.Query.{query, do_silent_query, silent_query}
use storm_byte_database.MariaDb.Query.Quiet.{
  Calm, Calm-then, Quiet, Quiet-then, write_log-Quiet, do_silent_query-Quiet, silent_query-Quiet,
  query-Quiet,
}
use storm_byte_database.MariaDb.Connection.{
  SslSupport, ssl_option, set_option, destroy_handle, destroy_stmt, destroy_all, do_pre_disconnect,
  close_conn, do_disconnect, connect_failed, connect_succeeded, connect_handle, connect_new,
  do_connect, create_on, create_stmt, isolation_sql, set_isolation, do_begin, backend,
}
use storm_byte_database.MariaDb.Connection.Lifecycle.{owns, connect_handle-Settles}
use storm_byte_database.MariaDb.Connection.Contracts.{backend-Connects}

module _ (c : Client) (ssl : SslSupport) where
  abbrev pub Same : MariaDb → MariaDb → Type 0
  Same = Still owns (given c) closed

  Calm-Same : (db db' : MariaDb) → Calm c db db' → Same db db'
  Calm-Same db db' (o, k, g, t) = (k, ap (λ (w : Own). is_some w.conn) o, g, t)

  Quiet-Same : (db db' : MariaDb) → Quiet c db db' → Same db db'
  Quiet-Same db db' (k, _, _, _) = Calm-Same db db' k

  set_option-given :
      (h : ℕ) (o : Option SslOption) (db : MariaDb)
      → given c (set_option h o db).1.env ≡ given c db.env
  unfolding set_option given
  set_option-given h none db = refl
  set_option-given h (some o) db = refl

  connect_handle-given :
      (o : Option ℕ) (db : MariaDb) → given c (connect_handle c ssl o db).1.env ≡ given c db.env
  unfolding connect_handle connect_failed connect_succeeded write_log given
  connect_handle-given none db = ground arith
  connect_handle-given (some h) db =
      ground (arith, set_option-given h (ssl_option ssl db.ssl_mode) db)

  abbrev entered : MariaDb → MariaDb
  entered db = (write_log low_level (text "MariaDB::DoConnect enter" ∷ []) db).1

  connect_gives :
      (db : MariaDb)
      → db.connected ≡ false
      → owns db ≡ false
      → given c (do_connect c ssl db).1.env + closed db.env
        ≡ given c db.env
          + closed (do_connect c ssl db).1.env
          + one_if (owns (do_connect c ssl db).1)
  unfolding do_connect connect_new given closed
  connect_gives db off free =
      let d : MariaDb = entered db in
      let ((o, k, g, t), _, _, _) =
        write_log-Quiet c low_level (text "MariaDB::DoConnect enter" ∷ []) db in
      let z : d.connected ≡ false = k ∙ off in
      let held : owns d ≡ false = ap (λ (w : Own). is_some w.conn) o ∙ free in
      let begun : MariaDb = (call initializes d).1 in
      let (x, y, w) = connect_handle-Settles c ssl (c.init d.env) begun held in
      rw z (omega (arith, connect_handle-given (c.init d.env) begun, ap one_if y, w, g, t))

  connect_again :
      (db : MariaDb)
      → db.connected ≡ true
      → (given c (do_connect c ssl db).1.env ≡ given c db.env)
        × (closed (do_connect c ssl db).1.env ≡ closed db.env)
  unfolding do_connect
  connect_again db on =
      ground (arith, write_log-Quiet c low_level (text "MariaDB::DoConnect enter" ∷ []) db)

  close_conn-takes :
      (o : Option ℕ) (db : MariaDb)
      → (given c (close_conn o db).1.env ≡ given c db.env)
        × (closed (close_conn o db).1.env ≡ closed db.env + one_if (is_some o))
  unfolding close_conn given closed
  close_conn-takes none db = (refl, omega arith)
  close_conn-takes (some h) db = (refl, omega arith)

  disconnect_takes :
      (db : MariaDb)
      → (given c (do_disconnect db).1.env ≡ given c db.env)
        × (closed (do_disconnect db).1.env ≡ closed db.env + one_if (owns db))
  unfolding do_disconnect
  disconnect_takes db = close_conn-takes db.own.conn db

  destroy_handle-Calm : (o : Option ℕ) (db : MariaDb) → Calm c db (destroy_handle o db).1
  unfolding destroy_handle given closed
  destroy_handle-Calm none db = (refl, refl, refl, refl)
  destroy_handle-Calm (some s) db = (refl, refl, refl, refl)

  destroy_all-Calm : (m : List (Text × Stmt)) (db : MariaDb) → Calm c db (destroy_all m db).1
  unfolding destroy_all destroy_stmt
  destroy_all-Calm [] db = (refl, refl, refl, refl)
  destroy_all-Calm ((name, p) ∷ m) db =
      let d : MariaDb = (destroy_stmt p db).1 in
      Calm-then c db d (destroy_all m d).1 (destroy_handle-Calm p.stmt db) (destroy_all-Calm m d)

  do_pre_disconnect-Calm : (db : MariaDb) → Calm c db (do_pre_disconnect db).1
  unfolding do_pre_disconnect
  do_pre_disconnect-Calm db = destroy_all-Calm db.prepared_stmts db

  create_on-Calm :
      (o : Option ℕ) (name sql : Text) (db : MariaDb) → Calm c db (create_on c ssl o name sql db).1
  unfolding create_on
  create_on-Calm none name sql db = (refl, refl, refl, refl)
  create_on-Calm (some h) name sql db = construct-Calm c h name sql db

  set_isolation-Quiet : (o : Option Text) (db : MariaDb) → Quiet c db (set_isolation c ssl o db).1
  unfolding set_isolation
  set_isolation-Quiet none db = ((refl, refl, refl, refl), refl, refl, refl)
  set_isolation-Quiet (some sql) db = do_silent_query-Quiet c sql db

  pub do_begin-Quiet :
      (level : IsolationLevel) (db : MariaDb) → Quiet c db (do_begin c ssl level db).1
  unfolding do_begin
  do_begin-Quiet level db =
      let d : MariaDb = (set_isolation c ssl (isolation_sql level) db).1 in
      Quiet-then c db d (do_silent_query c (text "BEGIN;") d).1
        (set_isolation-Quiet (isolation_sql level) db) (do_silent_query-Quiet c (text "BEGIN;") d)

  module _ (pre post closing : Action MariaDb (Unit {0})) (it : Iterable) where
    backend-Steady : Steady (backend c ssl pre post closing it) Same
    unfolding backend create_stmt destroy_stmt
    backend-Steady = record {
      again = Still-again owns (given c) closed;
      further = Still-further owns (given c) closed;
      logs = λ l pieces db. Quiet-Same db (write_log l pieces db).1 (write_log-Quiet c l pieces db);
      registers = λ m db. (refl, refl, refl, refl);
      creates = λ name sql db.
          Calm-Same db (create_on c ssl db.own.conn name sql db).1
            (create_on-Calm db.own.conn name sql db);
      destroys = λ p db. Calm-Same db (destroy_handle p.stmt db).1 (destroy_handle-Calm p.stmt db);
      runs =
          λ args p db. let (g, t, _, _) = execute-Idle c it args (p, db.env) in (refl, refl, g, t);
      starts = λ level db. Quiet-Same db (do_begin c ssl level db).1 (do_begin-Quiet level db);
      does = λ sql db. Quiet-Same db (do_silent_query c sql db).1 (do_silent_query-Quiet c sql db);
      asks = λ sql db. Quiet-Same db (query c it sql db).1 (query-Quiet c it sql db);
      tells = λ sql db. Quiet-Same db (silent_query c sql db).1 (silent_query-Quiet c sql db);
    }

    -- The contract of the life of a database, if the hooks leave the connection alone.
    pub backend-Accounts :
        ((db : MariaDb) → Same db (pre db).1)
        → ((db : MariaDb) → Same db (post db).1)
        → ((db : MariaDb) → Same db (closing db).1)
        → Accounts owns (given c) closed (backend c ssl pre post closing it)
    unfolding backend
    backend-Accounts kpre kpost kclosing = record {
      connection =
          backend-Connects c ssl pre post closing it (λ db. ((kpre db).0, (kpre db).1))
            (λ db. ((kpost db).0, (kpost db).1)) (λ db. ((kclosing db).0, (kclosing db).1));
      steady = backend-Steady;
      pre_connect_still = kpre;
      post_connect_still = kpost;
      pre_disconnect_still =
          λ db. Calm-Same db (do_pre_disconnect db).1 (do_pre_disconnect-Calm db);
      post_disconnect_still = kclosing;
      connect_again = connect_again;
      connect_gives = connect_gives;
      disconnect_takes = disconnect_takes;
    }
