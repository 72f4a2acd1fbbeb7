-- ===== src/Postgres/Connection/Contracts.antt =====
-- How PostgreSQL fills the contracts of the connection and of the registry.
use storm_byte_database.Prelude.{
  ℕ, ◌≡◌, refl, ◌∙◌, ap, true, false, inl, inr, Option, none, some, [], ◌∷◌, Text, text, arith,
  is_some, Action, Bool-cases, Option-cases,
}
use storm_byte_database.Rows.{Iterable}
use storm_byte_database.Database.{low_level, write_log}
use storm_byte_database.Database.Lifecycle.{Keeps, Connects}
use storm_byte_database.Database.Registry.{Creates}
use storm_byte_database.Postgres.Client.{Client}
use storm_byte_database.Postgres.Statement.{Stmt, create, virtuals}
use storm_byte_database.Postgres.Members.{Own, Postgres}
use storm_byte_database.Postgres.Connection.{
  finish_conn, do_pre_disconnect, do_disconnect, connect_failed, connect_succeeded, connect_handle,
  connect_new, do_connect, created, create_on, create_stmt, backend,
}
use storm_byte_database.Postgres.Connection.Lifecycle.{owns, do_connect-Settles}

do_disconnect-none : (db : Postgres) → owns (do_disconnect db).1 ≡ false
unfolding do_disconnect finish_conn
do_disconnect-none db = elim (Option-cases db.own.conn) [
  | inl e ↦ rw (e, do_disconnect) refl
  | inr (h, e) ↦ rw (e, do_disconnect) refl
]

module _ (c : Client) where
  connect_failed-connected :
      (h : ℕ) (db : Postgres) → (connect_failed c h db).1.connected ≡ db.connected
  unfolding connect_failed write_log
  connect_failed-connected h db = ground arith

  connect_succeeded-connected :
      (h : ℕ) (db : Postgres) → (connect_succeeded c h db).1.connected ≡ db.connected
  unfolding connect_succeeded write_log
  connect_succeeded-connected h db = ground arith

  connect_handle-connected :
      (o : Option ℕ) (db : Postgres) → (connect_handle c o db).1.connected ≡ db.connected
  unfolding connect_handle write_log
  connect_handle-connected none db = ground arith
  connect_handle-connected (some h) db = elim (Bool-cases (c.status_ok db.env h)) [
    | inl g ↦ rw (g, connect_handle) (connect_succeeded-connected h db)
    | inr g ↦ rw (g, connect_handle) (connect_failed-connected h db)
  ]

  abbrev entered : Postgres → Postgres
  entered db = (write_log low_level (text "Postgres::DoConnect enter" ∷ []) db).1

  entered-same :
      (db : Postgres) → ((entered db).connected ≡ db.connected) × (owns (entered db) ≡ owns db)
  unfolding write_log
  entered-same db = ground arith

  do_connect-connected : (db : Postgres) → (do_connect c db).1.connected ≡ db.connected
  unfolding do_connect connect_new
  do_connect-connected db = elim (Bool-cases (entered db).connected) [
    | inl g ↦ rw g (entered-same db).0
    | inr g ↦ rw g (connect_handle-connected _ _ ∙ (entered-same db).0)
  ]

  do_connect_again :
      (db : Postgres)
      → db.connected ≡ true
      → ((do_connect c db).0 ≡ false) × (owns (do_connect c db).1 ≡ owns db)
  unfolding do_connect
  do_connect_again db h =
      let z : (entered db).connected ≡ true = (entered-same db).0 ∙ h in
      rw z (refl, (entered-same db).1)

  created-prepared_stmts :
      (conn : ℕ) (res : Option ℕ) (name sql : Text) (db : Postgres)
      → (created c conn res name sql db).1.prepared_stmts ≡ db.prepared_stmts
  unfolding created write_log
  created-prepared_stmts conn none name sql db = ground arith
  created-prepared_stmts conn (some res) name sql db = ground arith

  created-name :
      (conn : ℕ) (res : Option ℕ) (name sql : Text) (db : Postgres) (p : Stmt)
      → (created c conn res name sql db).0 ≡ some p
      → p.name ≡ name
  unfolding created create write_log
  created-name conn none name sql db p e = cc
  created-name conn (some res) name sql db p e = elim (Bool-cases (c.result_ok res)) [
    | inl g ↦ ground (arith, g, e)
    | inr g ↦ ground (arith, g, e)
  ]

  create_on-prepared_stmts :
      (o : Option ℕ) (name sql : Text) (db : Postgres)
      → (create_on c o name sql db).1.prepared_stmts ≡ db.prepared_stmts
  unfolding create_on
  create_on-prepared_stmts none name sql db = refl
  create_on-prepared_stmts (some conn) name sql db = created-prepared_stmts conn _ name sql _

  create_on-name :
      (o : Option ℕ) (name sql : Text) (db : Postgres) (p : Stmt)
      → (create_on c o name sql db).0 ≡ some p
      → p.name ≡ name
  unfolding create_on
  create_on-name none name sql db p e = cc
  create_on-name (some conn) name sql db p e = created-name conn _ name sql _ p e

  module _ (pre post closing : Action Postgres (Unit {0})) (it : Iterable) where
    -- PostgreSQL keeps the connection contract, if its hooks leave the connection alone.
    pub backend-Connects :
        ((db : Postgres) → Keeps owns db (pre db).1)
        → ((db : Postgres) → Keeps owns db (post db).1)
        → ((db : Postgres) → Keeps owns db (closing db).1)
        → Connects (backend c pre post closing it) owns
    unfolding backend do_pre_disconnect
    backend-Connects kpre kpost kclosing = record {
      handle_own = λ db db' e. ap (λ (w : Own). is_some w.conn) e;
      pre_connect_keeps = kpre;
      post_connect_keeps = kpost;
      connect_flag = do_connect-connected;
      connect_again = do_connect_again;
      connect_handle = λ db e o. (do_connect-Settles c db e o).1;
      pre_disconnect_keeps = λ db. refl;
      disconnect_handle = do_disconnect-none;
      post_disconnect_keeps = λ db. (kclosing db).1;
    }

    -- A statement that is made carries the name that it was asked for, and making one leaves the registry alone.
    pub backend-Creates : Creates (backend c pre post closing it)
    unfolding backend virtuals create_stmt
    backend-Creates = record {
      create_keeps = λ name sql db. create_on-prepared_stmts db.own.conn name sql db;
      create_names = λ name sql db p e. create_on-name db.own.conn name sql db p e;
      destroy_keeps = λ p db. refl;
    }
