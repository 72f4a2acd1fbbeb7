-- ===== src/Sqlite/Connection/Release.antt =====
-- `Disconnect` of an SQLite object, and how SQLite fills the contract of the connection.
use storm_byte_database.Prelude.{
  ◌-◌, ◌≡◌, refl, ◌∙◌, ap, Text, text, false, none, List, [], ◌∷◌, arith, is_some, Action,
  Option-cases, inl, inr,
}
use storm_byte_database.Rows.{Iterable}
use storm_byte_database.Database.{low_level, write_log, disconnect}
use storm_byte_database.Database.Lifecycle.{Keeps, Connects}
use storm_byte_database.Sqlite.Client.{Client, Env, shuts_down}
use storm_byte_database.Sqlite.Statement.{Stmt}
use storm_byte_database.Sqlite.Members.{Sqlite}
use storm_byte_database.Sqlite.Connection.{
  release_library, clear_stmts, destroy_all, destroy_stmt, do_pre_disconnect, do_disconnect,
  do_post_disconnect, backend, destroy,
}
use storm_byte_database.Sqlite.Connection.Lifecycle.{
  owns, OpenGivesHandle, write_log-same, do_connect-Opens, do_connect_again, do_connect-connected,
}

destroy_stmt-same :
    (p : Stmt) (db : Sqlite)
    → let db' = (destroy_stmt p db).1 in
      (db'.connected ≡ db.connected) × (db'.own ≡ db.own) × (db'.env.refcount ≡ db.env.refcount)
unfolding destroy_stmt
destroy_stmt-same p db = elim (Option-cases p.handle) [
  | inl e ↦ rw (e, destroy_stmt) (refl, refl, refl)
  | inr (h, e) ↦ rw (e, destroy_stmt) (refl, refl, refl)
]

destroy_all-same :
    (m : List (Text × Stmt)) (db : Sqlite)
    → let db' = (destroy_all m db).1 in
      (db'.connected ≡ db.connected) × (db'.own ≡ db.own) × (db'.env.refcount ≡ db.env.refcount)
unfolding destroy_all
destroy_all-same [] db = (refl, refl, refl)
destroy_all-same ((name, p) ∷ m) db =
    let (a, b, r) = destroy_stmt-same p db in
    let (a', b', r') = destroy_all-same m (destroy_stmt p db).1 in (a' ∙ a, b' ∙ b, r' ∙ r)

do_pre_disconnect-same :
    (db : Sqlite)
    → let db' = (do_pre_disconnect db).1 in
      (db'.connected ≡ db.connected) × (db'.own ≡ db.own) × (db'.env.refcount ≡ db.env.refcount)
unfolding do_pre_disconnect clear_stmts
do_pre_disconnect-same db = ground (arith, destroy_all-same db.prepared_stmts db)

do_disconnect-none :
    (db : Sqlite)
    → let db' = (do_disconnect db).1 in
      (owns db' ≡ false) × (db'.env.refcount ≡ db.env.refcount) × (db'.connected ≡ db.connected)
unfolding do_disconnect
do_disconnect-none db = elim (Option-cases db.own.database) [
  | inl e ↦ rw (e, do_disconnect) (refl, refl, refl)
  | inr (h, e) ↦ rw (e, do_disconnect) (refl, refl, refl)
]

do_post_disconnect-same :
    (db : Sqlite)
    → let db' = (do_post_disconnect db).1 in
      (db'.own ≡ db.own) × (db'.env.refcount ≡ db.env.refcount - 1)
unfolding do_post_disconnect release_library
do_post_disconnect-same db = ground arith

module _ (c : Client) (pre post : Action Sqlite (Unit {0})) (it : Iterable) where
  -- SQLite keeps the connection contract, if its hooks leave the connection alone.
  pub backend-Connects :
      OpenGivesHandle c
      → ((db : Sqlite) → Keeps owns db (pre db).1)
      → ((db : Sqlite) → Keeps owns db (post db).1)
      → Connects (backend c pre post it) owns
  unfolding backend
  backend-Connects g kpre kpost = record {
    handle_own = λ db db' e. ap (λ o. is_some o.database) e;
    pre_connect_keeps = kpre;
    post_connect_keeps = kpost;
    connect_flag = λ db. do_connect-connected c db g;
    connect_again = λ db e. do_connect_again c db e;
    connect_handle = λ db e o. (do_connect-Opens c db g e o).1;
    pre_disconnect_keeps = λ db. ap (λ o. is_some o.database) (do_pre_disconnect-same db).1;
    disconnect_handle = λ db. (do_disconnect-none db).0;
    post_disconnect_keeps = λ db. ap (λ o. is_some o.database) (do_post_disconnect-same db).0;
  }

  -- Disconnect of an SQLite object takes one user of the library away if there is one, whether or not this
  -- object counted as one.
  disconnect-refcount :
      (db : Sqlite) → (disconnect (backend c pre post it) db).1.env.refcount ≡ db.env.refcount - 1
  unfolding disconnect backend
  disconnect-refcount db =
      let d1 : Sqlite = (write_log low_level (text "Disconnect enter" ∷ []) db).1 in
      let d2 : Sqlite = (do_pre_disconnect d1).1 in
      let d3 : Sqlite = (do_disconnect d2).1 in
      let d4 : Sqlite = (do_post_disconnect d3).1 in
      let d5 : Sqlite = record d4 { connected = false } in
      omega (
        arith,
        ap (λ (e : Env). e.refcount) (write_log-same low_level (text "Disconnect enter" ∷ []) db).2,
        (do_pre_disconnect-same d1).2,
        (do_disconnect-none d2).1,
        (do_post_disconnect-same d3).1,
        ap (λ (e : Env). e.refcount) (write_log-same low_level (text "Disconnect leave" ∷ []) d5).2,
      )

  -- If the library has one user, destroying an SQLite object that owns no handle and no statement takes it
  -- away and shuts the library down.
  pub destroy_shuts_down :
      (db : Sqlite)
      → db.own.database ≡ none
      → db.prepared_stmts ≡ []
      → db.env.refcount ≡ 1
      → ((destroy c pre post it db).1.env.refcount ≡ 0)
        × ((destroy c pre post it db).1.env.calls ≡ shuts_down ∷ db.env.calls)
  unfolding destroy disconnect backend do_pre_disconnect do_disconnect do_post_disconnect
      release_library clear_stmts write_log
  destroy_shuts_down db e m r = ground (arith, e, m, r)
