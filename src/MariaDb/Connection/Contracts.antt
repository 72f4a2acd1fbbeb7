-- ===== src/MariaDb/Connection/Contracts.antt =====
-- How MariaDB fills the contracts of the connection and of the registry.
use storm_byte_database.Prelude.{
  ℕ, ◌≡◌, refl, ◌∙◌, ap, true, false, inl, inr, Option, none, some, List, [], ◌∷◌, Text, text,
  arith, is_some, Action, Bool-cases, Option-cases,
}
use storm_byte_database.Rows.{Iterable}
use storm_byte_database.Database.{low_level, write_log}
use storm_byte_database.Database.Lifecycle.{Keeps, Connects}
use storm_byte_database.Database.Registry.{Creates}
use storm_byte_database.MariaDb.Client.{SslOption, connects, Client}
use storm_byte_database.MariaDb.Statement.{Stmt}
use storm_byte_database.MariaDb.Output.{virtuals}
use storm_byte_database.MariaDb.Members.{Own, MariaDb, call}
use storm_byte_database.MariaDb.Construct.{construct, construct-prepared_stmts}
use storm_byte_database.MariaDb.Connection.{
  SslSupport, ssl_option, or_null, set_option, destroy_handle, destroy_stmt, destroy_all,
  do_pre_disconnect, close_conn, do_disconnect, connect_failed, connect_succeeded, connect_handle,
  connect_new, do_connect, create_on, create_stmt, backend,
}
use storm_byte_database.MariaDb.Connection.Lifecycle.{owns, do_connect-closes}

-- What the destructors of statements leave alone.
abbrev Leaves : MariaDb → MariaDb → Type 0
Leaves db db' =
    (db'.own ≡ db.own) × (db'.connected ≡ db.connected) × (db'.prepared_stmts ≡ db.prepared_stmts)

destroy_handle-Leaves : (o : Option ℕ) (db : MariaDb) → Leaves db (destroy_handle o db).1
unfolding destroy_handle
destroy_handle-Leaves none db = (refl, refl, refl)
destroy_handle-Leaves (some s) db = (refl, refl, refl)

destroy_all-own : (m : List (Text × Stmt)) (db : MariaDb) → (destroy_all m db).1.own ≡ db.own
unfolding destroy_all destroy_stmt
destroy_all-own [] db = refl
destroy_all-own ((name, p) ∷ m) db =
    destroy_all-own m (destroy_stmt p db).1 ∙ (destroy_handle-Leaves p.stmt db).0

do_pre_disconnect-owns : (db : MariaDb) → owns (do_pre_disconnect db).1 ≡ owns db
unfolding do_pre_disconnect
do_pre_disconnect-owns db = ap (λ (w : Own). is_some w.conn) (destroy_all-own db.prepared_stmts db)

do_disconnect-none : (db : MariaDb) → owns (do_disconnect db).1 ≡ false
unfolding do_disconnect close_conn
do_disconnect-none db = elim (Option-cases db.own.conn) [
  | inl e ↦ rw (e, do_disconnect) refl
  | inr (h, e) ↦ rw (e, do_disconnect) refl
]

set_option-connected :
    (h : ℕ) (o : Option SslOption) (db : MariaDb) → (set_option h o db).1.connected ≡ db.connected
unfolding set_option
set_option-connected h none db = refl
set_option-connected h (some o) db = refl

module _ (c : Client) (ssl : SslSupport) where
  connect_failed-connected :
      (h : ℕ) (db : MariaDb) → (connect_failed c ssl h db).1.connected ≡ db.connected
  unfolding connect_failed write_log
  connect_failed-connected h db = ground arith

  connect_succeeded-connected :
      (h : ℕ) (db : MariaDb) → (connect_succeeded c ssl h db).1.connected ≡ db.connected
  unfolding connect_succeeded write_log
  connect_succeeded-connected h db = ground arith

  connect_handle-connected :
      (o : Option ℕ) (db : MariaDb) → (connect_handle c ssl o db).1.connected ≡ db.connected
  unfolding connect_handle write_log
  connect_handle-connected none db = ground arith
  connect_handle-connected (some h) db =
      let d : MariaDb = (set_option h (ssl_option ssl db.ssl_mode) db).1 in
      let k : MariaDb =
        (call
          (connects h (or_null d.own.host) (or_null d.own.user) (or_null d.own.password)
            (or_null d.own.dbname) d.own.port)
          d).1 in
      elim (Bool-cases (c.real_connect d.env h)) [
        | inl g ↦ rw g (
            connect_succeeded-connected h k
            ∙ set_option-connected h (ssl_option ssl db.ssl_mode) db)
        | inr g ↦
            rw g (
              connect_failed-connected h k ∙ set_option-connected h (ssl_option ssl db.ssl_mode) db)
      ]

  abbrev entered : MariaDb → MariaDb
  entered db = (write_log low_level (text "MariaDB::DoConnect enter" ∷ []) db).1

  entered-same :
      (db : MariaDb) → ((entered db).connected ≡ db.connected) × (owns (entered db) ≡ owns db)
  unfolding write_log
  entered-same db = ground arith

  do_connect-connected : (db : MariaDb) → (do_connect c ssl db).1.connected ≡ db.connected
  unfolding do_connect connect_new
  do_connect-connected db = elim (Bool-cases (entered db).connected) [
    | inl g ↦ rw g (entered-same db).0
    | inr g ↦ rw g (connect_handle-connected _ _ ∙ (entered-same db).0)
  ]

  do_connect_again :
      (db : MariaDb)
      → db.connected ≡ true
      → ((do_connect c ssl db).0 ≡ false) × (owns (do_connect c ssl db).1 ≡ owns db)
  unfolding do_connect
  do_connect_again db h =
      let z : (entered db).connected ≡ true = (entered-same db).0 ∙ h in
      rw z (refl, (entered-same db).1)

  create_on-prepared_stmts :
      (o : Option ℕ) (name sql : Text) (db : MariaDb)
      → (create_on c ssl o name sql db).1.prepared_stmts ≡ db.prepared_stmts
  unfolding create_on
  create_on-prepared_stmts none name sql db = refl
  create_on-prepared_stmts (some h) name sql db = construct-prepared_stmts c h name sql db

  create_on-name :
      (o : Option ℕ) (name sql : Text) (db : MariaDb) (p : Stmt)
      → (create_on c ssl o name sql db).0 ≡ some p
      → p.name ≡ name
  unfolding create_on construct
  create_on-name none name sql db p e = cc
  create_on-name (some h) name sql db p e = ground (arith, e)

  module _ (pre post closing : Action MariaDb (Unit {0})) (it : Iterable) where
    -- MariaDB keeps the connection contract, if its hooks leave the connection alone.
    pub backend-Connects :
        ((db : MariaDb) → Keeps owns db (pre db).1)
        → ((db : MariaDb) → Keeps owns db (post db).1)
        → ((db : MariaDb) → Keeps owns db (closing db).1)
        → Connects (backend c ssl pre post closing it) owns
    unfolding backend
    backend-Connects kpre kpost kclosing = record {
      handle_own = λ db db' e. ap (λ (w : Own). is_some w.conn) e;
      pre_connect_keeps = kpre;
      post_connect_keeps = kpost;
      connect_flag = do_connect-connected;
      connect_again = do_connect_again;
      connect_handle = λ db e o. (do_connect-closes c ssl db e o).1;
      pre_disconnect_keeps = do_pre_disconnect-owns;
      disconnect_handle = do_disconnect-none;
      post_disconnect_keeps = λ db. (kclosing db).1;
    }

    -- A statement that is made carries the name that it was asked for, and neither making nor destroying one touches the
    -- registry.
    pub backend-Creates : Creates (backend c ssl pre post closing it)
    unfolding backend virtuals create_stmt destroy_stmt
    backend-Creates = record {
      create_keeps = λ name sql db. create_on-prepared_stmts db.own.conn name sql db;
      create_names = λ name sql db p e. create_on-name db.own.conn name sql db p e;
      destroy_keeps = λ p db. (destroy_handle-Leaves p.stmt db).2;
    }
