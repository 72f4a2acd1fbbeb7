-- ===== src/Sqlite/Connection/Handles/Release.antt =====
-- All statement handles that SQLite gave a database object are finalized once the object is destroyed.
use storm_byte_database.Prelude.{◌+◌, ◌≡◌, refl, ap, List, [], ◌∷◌, Text, text, arith, Action}
use storm_byte_database.Rows.{Iterable}
use storm_byte_database.Value.{Value}
use storm_byte_database.Statement.{execute}
use storm_byte_database.Database.{low_level, write_log, disconnect}
use storm_byte_database.Database.Lifetime.{Life, live_all}
use storm_byte_database.Database.Handles.{held, Handles, write_log-Evens}
use storm_byte_database.Database.Handles.Lives.{disconnect-Evens, live_all-Evens}
use storm_byte_database.Sqlite.Client.{Client, Env}
use storm_byte_database.Sqlite.Statement.{Stmt, virtuals}
use storm_byte_database.Sqlite.Statement.Idle.{execute-Leaves, execute-stmt}
use storm_byte_database.Sqlite.Members.{Sqlite}
use storm_byte_database.Sqlite.Query.{silent_query}
use storm_byte_database.Sqlite.Connection.{clear_stmts, do_begin, begin_sql, backend, destroy}
use storm_byte_database.Sqlite.Connection.Handles.{
  owned, finalized_by, prepared_by, Even, do_connect-Even, do_pre_disconnect-Even,
  do_disconnect-Even, do_post_disconnect-Even, destroy_stmt-takes, clear_stmts-Even,
}
use storm_byte_database.Sqlite.Connection.Handles.Queries.{
  create_stmt-gives, do_silent_query-Even, query-Even,
}

module _ (c : Client) (it : Iterable) where
  runs-Even :
      (args : List Value) (p : Stmt) (e : Env)
      → let (p', e') = (execute (virtuals c it) args (p, e)).1 in
        (owned p' ≡ owned p)
        × (prepared_by c e' + finalized_by e ≡ prepared_by c e + finalized_by e')
  runs-Even args p e =
      let (_, _, x, y) = execute-Leaves c it args p e in
      (ap owned (execute-stmt c it args (p, e)), omega (arith, x, y))

  module _ (pre post : Action Sqlite (Unit {0})) where
    -- The contract of the handles of statements, if the hooks leave them alone.
    pub backend-Handles :
        ((db : Sqlite) → Even c db (pre db).1)
        → ((db : Sqlite) → Even c db (post db).1)
        → Handles owned (prepared_by c) finalized_by (backend c pre post it)
    unfolding backend do_begin silent_query
    backend-Handles kpre kpost = record {
      pre_connects = kpre;
      joins = do_connect-Even c;
      post_connects = kpost;
      pre_disconnects = do_pre_disconnect-Even c;
      leaves = do_disconnect-Even c;
      post_disconnects = do_post_disconnect-Even c;
      creates = create_stmt-gives c;
      destroys = destroy_stmt-takes c;
      runs = runs-Even;
      starts = λ level db. do_silent_query-Even c (begin_sql level) db;
      does = do_silent_query-Even c;
      asks = query-Even c it;
      tells = do_silent_query-Even c;
    }

    clear_stmts-empty : (db : Sqlite) → (clear_stmts db).1.prepared_stmts ≡ []
    unfolding clear_stmts
    clear_stmts-empty db = refl

    -- If the connect hooks leave statements alone, and of the statement handles that SQLite gave out so far
    -- those that were not finalized are held by the registry, then after connects, disconnects and uses in
    -- any order the destructor of an SQLite object leaves no statement, and as many handles were finalized
    -- as were given out.
    pub destroy_finalizes :
        ((db : Sqlite) → Even c db (pre db).1)
        → ((db : Sqlite) → Even c db (post db).1)
        → (ls : List Life) (db : Sqlite)
        → prepared_by c db.env ≡ finalized_by db.env + held owned db.prepared_stmts
        → let db' = (destroy c pre post it (live_all (backend c pre post it) ls db)).1 in
          (db'.prepared_stmts ≡ []) × (prepared_by c db'.env ≡ finalized_by db'.env)
    unfolding destroy
    destroy_finalizes kpre kpost ls db e =
        let k : Handles owned (prepared_by c) finalized_by (backend c pre post it) =
          backend-Handles kpre kpost in
        let d1 : Sqlite = live_all (backend c pre post it) ls db in
        let line : List Text = text "SQLite3 dtor" ∷ [] in
        let d2 : Sqlite = (write_log low_level line d1).1 in
        let d3 : Sqlite = (disconnect (backend c pre post it) d2).1 in
        (
          clear_stmts-empty d3,
          omega (
            arith,
            e,
            live_all-Evens owned (prepared_by c) finalized_by k ls db,
            write_log-Evens owned (prepared_by c) finalized_by low_level line d1,
            disconnect-Evens owned (prepared_by c) finalized_by k d2,
            clear_stmts-Even c d3,
            ap (held owned) (clear_stmts-empty d3),
          ),
        )
