-- ===== src/MariaDb/Connection/Handles.antt =====
-- The statement handles that the MariaDB connector gives a database object: all are closed once the object is destroyed.
use storm_byte_database.Prelude.{
  ℕ, ◌+◌, ◌≡◌, refl, ◌∙◌, ap, false, Option, none, some, List, [], ◌∷◌, Text, text, arith, is_some,
  one_if, Action,
}
use storm_byte_database.Rows.{Iterable}
use storm_byte_database.Value.{Value}
use storm_byte_database.Statement.{execute}
use storm_byte_database.Database.{low_level, write_log, disconnect}
use storm_byte_database.Database.Registry.{write_log-prepared_stmts}
use storm_byte_database.Database.Lifetime.{Life, live_all}
use storm_byte_database.Database.Handles.{held, weight_made, Evens, Handles, write_log-Evens}
use storm_byte_database.Database.Handles.Lives.{disconnect-Evens, live_all-Evens}
use storm_byte_database.MariaDb.Client.{Call, SslOption, initializes, Client}
use storm_byte_database.MariaDb.Client.Counts.{stmts_closed, stmts_given}
use storm_byte_database.MariaDb.Statement.{Stmt}
use storm_byte_database.MariaDb.Output.{virtuals}
use storm_byte_database.MariaDb.Output.Idle.{execute-Idle, execute-handle}
use storm_byte_database.MariaDb.Members.{MariaDb, call}
use storm_byte_database.MariaDb.Construct.Idle.{construct-gives}
use storm_byte_database.MariaDb.Query.{query, do_silent_query, silent_query}
use storm_byte_database.MariaDb.Query.Quiet.{
  Quiet, do_silent_query-Quiet, silent_query-Quiet, query-Quiet,
}
use storm_byte_database.MariaDb.Connection.{
  SslSupport, ssl_option, set_option, destroy_handle, destroy_stmt, destroy_all, do_pre_disconnect,
  close_conn, do_disconnect, connect_failed, connect_succeeded, connect_handle, connect_new,
  do_connect, create_on, create_stmt, do_begin, backend, destroy,
}
use storm_byte_database.MariaDb.Connection.Accounts.{do_begin-Quiet}

-- The handle that a statement owns.
abbrev pub owned : Stmt → ℕ
owned p = one_if (is_some p.stmt)

module _ (c : Client) where
  abbrev pub Even : MariaDb → MariaDb → Type 0
  Even = Evens owned (stmts_given c) stmts_closed

  Quiet-Even : (db db' : MariaDb) → Quiet c db db' → Even db db'
  Quiet-Even db db' (_, m, g, t) = omega (arith, ap (held owned) m, g, t)

  destroy_handle-takes :
      (o : Option ℕ) (db : MariaDb)
      → let db' = (destroy_handle o db).1 in
        (db'.prepared_stmts ≡ db.prepared_stmts)
        × (stmts_given c db'.env + stmts_closed db.env + one_if (is_some o)
            ≡ stmts_given c db.env + stmts_closed db'.env)
  unfolding destroy_handle stmts_given stmts_closed
  destroy_handle-takes none db = (refl, omega arith)
  destroy_handle-takes (some s) db = (refl, omega arith)

  destroy_all-takes :
      (m : List (Text × Stmt)) (db : MariaDb)
      → let db' = (destroy_all m db).1 in
        stmts_given c db'.env + stmts_closed db.env + held owned m
        ≡ stmts_given c db.env + stmts_closed db'.env
  unfolding destroy_all destroy_stmt
  destroy_all-takes [] db = omega arith
  destroy_all-takes ((name, p) ∷ m) db =
      let (same, more) = destroy_handle-takes p.stmt db in
      omega (arith, more, destroy_all-takes m (destroy_stmt p db).1)

  do_pre_disconnect-Even : (db : MariaDb) → Even db (do_pre_disconnect db).1
  unfolding do_pre_disconnect
  do_pre_disconnect-Even db = omega (arith, destroy_all-takes db.prepared_stmts db)

  close_conn-Even : (o : Option ℕ) (db : MariaDb) → Even db (close_conn o db).1
  unfolding close_conn stmts_given stmts_closed
  close_conn-Even none db = refl
  close_conn-Even (some h) db = refl

  do_disconnect-Even : (db : MariaDb) → Even db (do_disconnect db).1
  unfolding do_disconnect
  do_disconnect-Even db = close_conn-Even db.own.conn db

  module _ (ssl : SslSupport) where
    set_option-Even : (h : ℕ) (o : Option SslOption) (db : MariaDb) → Even db (set_option h o db).1
    unfolding set_option stmts_given stmts_closed
    set_option-Even h none db = refl
    set_option-Even h (some o) db = refl

    connect_handle-Even : (o : Option ℕ) (db : MariaDb) → Even db (connect_handle c ssl o db).1
    unfolding connect_handle connect_failed connect_succeeded write_log stmts_given stmts_closed
    connect_handle-Even none db = ground arith
    connect_handle-Even (some h) db =
        ground (arith, set_option-Even h (ssl_option ssl db.ssl_mode) db)

    do_connect-Even : (db : MariaDb) → Even db (do_connect c ssl db).1
    unfolding do_connect connect_new stmts_given stmts_closed
    do_connect-Even db =
        let line : List Text = text "MariaDB::DoConnect enter" ∷ [] in
        let d : MariaDb = (write_log low_level line db).1 in
        ground (
          arith,
          write_log-Evens owned (stmts_given c) stmts_closed low_level line db,
          connect_handle-Even (c.init d.env) (call initializes d).1,
        )

    create_on-gives :
        (o : Option ℕ) (name sql : Text) (db : MariaDb)
        → let (made, db') = create_on c ssl o name sql db in
          (db'.prepared_stmts ≡ db.prepared_stmts)
          × (stmts_given c db'.env + stmts_closed db.env
              ≡ stmts_given c db.env + stmts_closed db'.env + weight_made owned made)
    unfolding create_on
    create_on-gives none name sql db = (refl, omega arith)
    create_on-gives (some h) name sql db = construct-gives c h name sql db

    module _ (it : Iterable) (pre post closing : Action MariaDb (Unit {0})) where
      runs-Even :
          (args : List Value) (p : Stmt) (calls : List Call)
          → let (p', calls') = (execute (virtuals c it) args (p, calls)).1 in
            (owned p' ≡ owned p)
            × (stmts_given c calls' + stmts_closed calls
                ≡ stmts_given c calls + stmts_closed calls')
      runs-Even args p calls =
          let (_, _, x, y) = execute-Idle c it args (p, calls) in
          (
            ap (λ (h : Option ℕ). one_if (is_some h)) (execute-handle c it args (p, calls)),
            omega (arith, x, y),
          )

      -- The contract of the handles of statements, if the hooks leave them alone.
      pub backend-Handles :
          ((db : MariaDb) → Even db (pre db).1)
          → ((db : MariaDb) → Even db (post db).1)
          → ((db : MariaDb) → Even db (closing db).1)
          → Handles owned (stmts_given c) stmts_closed (backend c ssl pre post closing it)
      unfolding backend create_stmt destroy_stmt
      backend-Handles kpre kpost kclosing = record {
        pre_connects = kpre;
        joins = do_connect-Even;
        post_connects = kpost;
        pre_disconnects = do_pre_disconnect-Even;
        leaves = do_disconnect-Even;
        post_disconnects = kclosing;
        creates = λ name sql db. create_on-gives db.own.conn name sql db;
        destroys = λ p db. destroy_handle-takes p.stmt db;
        runs = runs-Even;
        starts =
            λ level db. Quiet-Even db (do_begin c ssl level db).1 (do_begin-Quiet c ssl level db);
        does =
            λ sql db. Quiet-Even db (do_silent_query c sql db).1 (do_silent_query-Quiet c sql db);
        asks = λ sql db. Quiet-Even db (query c it sql db).1 (query-Quiet c it sql db);
        tells = λ sql db. Quiet-Even db (silent_query c sql db).1 (silent_query-Quiet c sql db);
      }

      close_conn-prepared_stmts :
          (o : Option ℕ) (db : MariaDb) → (close_conn o db).1.prepared_stmts ≡ db.prepared_stmts
      unfolding close_conn
      close_conn-prepared_stmts none db = refl
      close_conn-prepared_stmts (some h) db = refl

      disconnect-empty :
          ((db : MariaDb) → (closing db).1.prepared_stmts ≡ db.prepared_stmts)
          → (db : MariaDb)
          → (disconnect (backend c ssl pre post closing it) db).1.prepared_stmts ≡ []
      unfolding disconnect backend do_pre_disconnect do_disconnect
      disconnect-empty keeps db =
          let d1 : MariaDb = (write_log low_level (text "Disconnect enter" ∷ []) db).1 in
          let d2 : MariaDb = (do_pre_disconnect d1).1 in
          let d3 : MariaDb = (do_disconnect d2).1 in
          let d4 : MariaDb = record (closing d3).1 { connected = false } in
          write_log-prepared_stmts low_level (text "Disconnect leave" ∷ []) d4
          ∙ keeps d3
          ∙ close_conn-prepared_stmts d2.own.conn d2

      -- If the hooks leave statements alone, and of the statement handles that the connector gave out so
      -- far those that were not closed are held by the registry, then after connects, disconnects and uses
      -- in any order the destructor of a MariaDB object leaves no statement, and as many handles were
      -- closed as were given out.
      pub destroy_closes :
          ((db : MariaDb) → Even db (pre db).1)
          → ((db : MariaDb) → Even db (post db).1)
          → ((db : MariaDb) → Even db (closing db).1)
          → ((db : MariaDb) → (closing db).1.prepared_stmts ≡ db.prepared_stmts)
          → (ls : List Life) (db : MariaDb)
          → stmts_given c db.env ≡ stmts_closed db.env + held owned db.prepared_stmts
          → let db' =
              (destroy c ssl pre post closing it
                (live_all (backend c ssl pre post closing it) ls db)).1 in
            (db'.prepared_stmts ≡ []) × (stmts_given c db'.env ≡ stmts_closed db'.env)
      unfolding destroy
      destroy_closes kpre kpost kclosing keeps ls db e =
          let k : Handles owned (stmts_given c) stmts_closed (backend c ssl pre post closing it) =
            backend-Handles kpre kpost kclosing in
          let d1 : MariaDb = live_all (backend c ssl pre post closing it) ls db in
          let line : List Text = text "MariaDB dtor" ∷ [] in
          let d2 : MariaDb = (write_log low_level line d1).1 in
          let empty : (disconnect (backend c ssl pre post closing it) d2).1.prepared_stmts ≡ [] =
            disconnect-empty keeps d2 in
          (
            empty,
            omega (
              arith,
              e,
              live_all-Evens owned (stmts_given c) stmts_closed k ls db,
              write_log-Evens owned (stmts_given c) stmts_closed low_level line d1,
              disconnect-Evens owned (stmts_given c) stmts_closed k d2,
              ap (held owned) empty,
            ),
          )
