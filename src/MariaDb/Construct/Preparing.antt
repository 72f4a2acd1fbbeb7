-- ===== src/MariaDb/Construct/Preparing.antt =====
-- What the constructors of a MariaDB statement ask of the connector, and what they make of its answers.
use storm_byte_database.Prelude.{
  ℕ, ◌≡◌, refl, Option, none, some, List, [], ◌∷◌, Text, arith, if◌then◌else◌,
}
use storm_byte_database.Database.{write_log}
use storm_byte_database.MariaDb.Client.{Call, inits_stmt, prepares, closes_stmt, Client}
use storm_byte_database.MariaDb.Statement.{Stmt, prepared_query}
use storm_byte_database.MariaDb.Statement.Trimming.{IsPreparedOf, prepared_query-IsPreparedOf}
use storm_byte_database.MariaDb.Members.{MariaDb, call}
use storm_byte_database.MariaDb.Construct.{
  prepare_handle, construct, prepare_logged, construct_logged,
}

module _ (c : Client) where
  -- From a handle on, for the query that is prepared: the handle that is kept, and the calls. A handle is kept
  -- exactly if the query could be prepared, and closed otherwise.
  abbrev pub Keeps : Option ℕ → Text → List Call → Option ℕ → List Call → Type 0
  Keeps none q calls kept after = (kept ≡ none) × (after ≡ calls)
  Keeps (some s) q calls kept after =
      (kept ≡ (if c.stmt_prepare calls s q then some s else none))
      × (after ≡ (
          if c.stmt_prepare calls s q
          then prepares s q ∷ calls
          else closes_stmt s ∷ prepares s q ∷ calls))

  prepare_handle-Keeps :
      (o : Option ℕ) (sql : Text) (db : MariaDb)
      → let (kept, db') = prepare_handle c o sql db in
        Keeps o (prepared_query sql) db.env kept db'.env
  unfolding prepare_handle
  prepare_handle-Keeps none sql db = (refl, refl)
  prepare_handle-Keeps (some s) sql db = ground arith

  prepare_logged-Keeps :
      (o : Option ℕ) (sql : Text) (db : MariaDb)
      → let (kept, db') = prepare_logged c o sql db in
        Keeps o (prepared_query sql) db.env kept db'.env
  unfolding prepare_logged write_log
  prepare_logged-Keeps none sql db = ground arith
  prepare_logged-Keeps (some s) sql db = ground arith

  -- A statement on the connection, made by one `mysql_stmt_init` and what follows it.
  abbrev pub Makes : ℕ → Text → Text → Text → List Call → Stmt → List Call → Type 0
  Makes conn name sql q calls p after =
      (p.name ≡ name)
      × (p.query ≡ sql)
      × (p.conn ≡ some conn)
      × (p.params ≡ [])
      × Keeps (c.stmt_init calls conn) q (inits_stmt conn ∷ calls) p.stmt after

  -- Both constructors of a MariaDB statement ask the connector for a handle once and to prepare on it the
  -- query less the spaces at its end and then one semicolon; they keep the handle exactly if that succeeds,
  -- close it otherwise, and differ in no call.
  pub construct-Makes :
      (conn : ℕ) (name sql : Text) (db : MariaDb)
      → (q : Text) × IsPreparedOf sql q
        × Makes conn name sql q db.env
            (construct c conn name sql db).0
            (construct c conn name sql db).1.env
        × Makes conn name sql q db.env
            (construct_logged c conn name sql db).0
            (construct_logged c conn name sql db).1.env
  unfolding construct construct_logged
  construct-Makes conn name sql db =
      let d : MariaDb = (call (inits_stmt conn) db).1 in
      (
        prepared_query sql,
        prepared_query-IsPreparedOf sql,
        (refl, refl, refl, refl, prepare_handle-Keeps (c.stmt_init db.env conn) sql d),
        (refl, refl, refl, refl, prepare_logged-Keeps (c.stmt_init db.env conn) sql d),
      )
