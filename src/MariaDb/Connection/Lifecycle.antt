-- ===== src/MariaDb/Connection/Lifecycle.antt =====
-- Connecting a MariaDB object: its handle, and the handles that `mysql_init` gave out.
use storm_byte_database.Prelude.{
  one_if, ℕ, ◌+◌, ◌≡◌, refl, ◌∙◌, ap, text, Bool, true, false, inl, inr, Option, none, some, [],
  ◌∷◌, arith, is_some, Bool-cases,
}
use storm_byte_database.Database.{low_level, write_log}
use storm_byte_database.MariaDb.Client.{SslOption, connects, initializes, Client}
use storm_byte_database.MariaDb.Client.Counts.{closed}
use storm_byte_database.MariaDb.Members.{MariaDb, call}
use storm_byte_database.MariaDb.Connection.{
  SslSupport, ssl_option, set_option, connect_failed, connect_succeeded, connect_handle,
  connect_new, do_connect, or_null,
}

abbrev pub owns : MariaDb → Bool
owns db = is_some db.own.conn

-- What `DoConnect` leaves of a handle that was given out: the object owns it if the call succeeded, and it is closed if not.
abbrev pub Settles : Bool → MariaDb → Bool × MariaDb → Type 0
Settles given db x =
    (x.1.connected ≡ db.connected)
    × (owns x.1 ≡ x.0)
    × (closed x.1.env + one_if x.0 ≡ closed db.env + one_if given)

module _ (c : Client) (ssl : SslSupport) where
  connect_failed-Settles : (h : ℕ) (db : MariaDb) → Settles true db (connect_failed c ssl h db)
  unfolding connect_failed write_log closed
  connect_failed-Settles h db = ground arith

  connect_succeeded-Settles :
      (h : ℕ) (db : MariaDb) → Settles true db (connect_succeeded c ssl h db)
  unfolding connect_succeeded write_log
  connect_succeeded-Settles h db = ground arith

  -- Setting the option closes nothing.
  set_option-closed :
      (h : ℕ) (o : Option SslOption) (db : MariaDb)
      → let db' = (set_option h o db).1 in
        (db'.connected ≡ db.connected) × (db'.own ≡ db.own) × (closed db'.env ≡ closed db.env)
  unfolding set_option closed
  set_option-closed h none db = (refl, refl, refl)
  set_option-closed h (some o) db = (refl, refl, refl)

  pub connect_handle-Settles :
      (o : Option ℕ) (db : MariaDb)
      → owns db ≡ false
      → Settles (is_some o) db (connect_handle c ssl o db)
  unfolding connect_handle write_log closed
  connect_handle-Settles none db e = ground arith
  connect_handle-Settles (some h) db e =
      let d : MariaDb = (set_option h (ssl_option ssl db.ssl_mode) db).1 in
      let k : MariaDb =
        (call
          (connects h (or_null d.own.host) (or_null d.own.user) (or_null d.own.password)
            (or_null d.own.dbname) d.own.port)
          d).1 in
      elim (Bool-cases (c.real_connect d.env h)) [
        | inl g ↦ rw g (
            ground (
              arith,
              set_option-closed h (ssl_option ssl db.ssl_mode) db,
              connect_succeeded-Settles h k,
            ))
        | inr g ↦ rw g (
            ground (
              arith,
              set_option-closed h (ssl_option ssl db.ssl_mode) db,
              connect_failed-Settles h k,
            ))
      ]

  abbrev entered : MariaDb → MariaDb
  entered db = (write_log low_level (text "MariaDB::DoConnect enter" ∷ []) db).1

  entered-same :
      (db : MariaDb)
      → ((entered db).connected ≡ db.connected)
        × (owns (entered db) ≡ owns db)
        × ((entered db).env ≡ db.env)
  unfolding write_log
  entered-same db = ground arith

  -- On a MariaDB object that is not connected and owns no connection, DoConnect ends with a connection
  -- exactly if it succeeds, and a handle that mysql_init gave is owned then or was closed.
  pub do_connect-closes :
      (db : MariaDb)
      → db.connected ≡ false
      → owns db ≡ false
      → Settles (is_some (c.init db.env)) db (do_connect c ssl db)
  unfolding do_connect connect_new closed
  do_connect-closes db n o =
      let (a, b, e) = entered-same db in
      let z : (entered db).connected ≡ false = a ∙ n in
      let k : MariaDb = (call initializes (entered db)).1 in
      rw z (
        ground
          (arith, a, e, ap c.init e, connect_handle-Settles (c.init (entered db).env) k (b ∙ o)))
