-- ===== src/Postgres/Connection/Lifecycle.antt =====
-- Connecting a PostgreSQL object: its handle, and the handles that libpq gave out.
use storm_byte_database.Prelude.{
  one_if, ℕ, suc, ◌+◌, ◌≡◌, ◌∙◌, Text, text, Bool, true, false, inl, inr, Option, none, some, [],
  ◌∷◌, arith, is_some, Bool-cases,
}
use storm_byte_database.Prelude.Words.{c_string}
use storm_byte_database.Database.{low_level, write_log}
use storm_byte_database.Postgres.Client.{connects, Client}
use storm_byte_database.Postgres.Client.Counts.{finished}
use storm_byte_database.Postgres.Members.{Postgres, call}
use storm_byte_database.Postgres.Connection.{
  conninfo, connect_failed, connect_succeeded, connect_handle, connect_new, do_connect,
}

abbrev pub owns : Postgres → Bool
owns db = is_some db.own.conn

-- `PQconnectdb` gave a handle out.
abbrev pub gives_handle : Client → Postgres → Bool
gives_handle c db = is_some (c.connectdb db.env (c_string (conninfo db)))

module _ (c : Client) where
  connect_failed-owns :
      (h : ℕ) (db : Postgres)
      → let (r, db') = connect_failed c h db in
        (r ≡ false)
        × (owns db' ≡ false)
        × (db'.connected ≡ db.connected)
        × (finished db'.env ≡ suc (finished db.env))
  unfolding connect_failed write_log finished
  connect_failed-owns h db = ground arith

  connect_succeeded-owns :
      (h : ℕ) (db : Postgres)
      → let (r, db') = connect_succeeded c h db in
        (r ≡ true)
        × (owns db' ≡ true)
        × (db'.connected ≡ db.connected)
        × (finished db'.env ≡ finished db.env)
  unfolding connect_succeeded write_log finished
  connect_succeeded-owns h db = ground arith

  -- What `DoConnect` leaves of a handle that was given out, on an object that owns none.
  abbrev pub Settles : Bool → Postgres → Bool × Postgres → Type 0
  Settles given db x =
      (x.1.connected ≡ db.connected)
      × (owns x.1 ≡ x.0)
      × (finished x.1.env + one_if x.0 ≡ finished db.env + one_if given)

  connect_handle-Settles :
      (o : Option ℕ) (db : Postgres)
      → owns db ≡ false
      → Settles (is_some o) db (connect_handle c o db)
  unfolding connect_handle write_log
  connect_handle-Settles none db e = ground arith
  connect_handle-Settles (some h) db e = elim (Bool-cases (c.status_ok db.env h)) [
    | inl g ↦ rw (g, connect_handle) (ground (arith, connect_succeeded-owns h db))
    | inr g ↦ rw (g, connect_handle) (ground (arith, connect_failed-owns h db))
  ]

  pub connect_new-Settles :
      (db : Postgres) → owns db ≡ false → Settles (gives_handle c db) db (connect_new c db)
  unfolding connect_new finished
  connect_new-Settles db e =
      let info : Text = c_string (conninfo db) in
      connect_handle-Settles (c.connectdb db.env info) (call (connects info) db).1 e

  abbrev entered : Postgres → Postgres
  entered db = (write_log low_level (text "Postgres::DoConnect enter" ∷ []) db).1

  entered-Settles :
      (db : Postgres) (x : Bool × Postgres)
      → Settles (gives_handle c (entered db)) (entered db) x
      → Settles (gives_handle c db) db x
  unfolding write_log conninfo
  entered-Settles db x h = elim (Bool-cases db.has_logger) [
    | inl e ↦ rw (e, write_log) at h
    | inr e ↦ rw (e, write_log) at h
  ]

  entered-same :
      (db : Postgres) → ((entered db).connected ≡ db.connected) × (owns (entered db) ≡ owns db)
  unfolding write_log
  entered-same db = ground arith

  -- On a PostgreSQL object that is not connected and owns no connection, DoConnect ends with a connection
  -- exactly if it succeeds, and a connection that libpq made is owned then or was finished.
  pub do_connect-Settles :
      (db : Postgres)
      → db.connected ≡ false
      → owns db ≡ false
      → Settles (gives_handle c db) db (do_connect c db)
  unfolding do_connect
  do_connect-Settles db n o =
      let (a, b) = entered-same db in
      let z : (entered db).connected ≡ false = a ∙ n in
      rw z
        (entered-Settles db (connect_new c (entered db)) (connect_new-Settles (entered db) (b ∙ o)))
