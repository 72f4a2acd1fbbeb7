-- ===== src/Sqlite/Connection/Lifecycle.antt =====
-- Connecting and disconnecting an SQLite object: its handle, and the count of the users of the library.
use storm_byte_database.Prelude.{
  one_if, ℕ, ◌+◌, ◌≡◌, refl, Text, text, Bool, true, false, Option, none, some, List, [], ◌∷◌,
  arith, is_some, Bool-cases, inl, inr,
}
use storm_byte_database.Prelude.Words.{c_string}
use storm_byte_database.Database.{Level, low_level, write_log}
use storm_byte_database.Sqlite.Client.{Call, Client, opens}
use storm_byte_database.Sqlite.Members.{Sqlite, call, set_database}
use storm_byte_database.Sqlite.Connection.{
  release_library, acquire_library, opened_well, open_failed, open_database, connect_new,
  do_connect,
}

-- Whether the object owns an open database.
abbrev pub owns : Sqlite → Bool
owns db = is_some db.own.database

-- `sqlite3_open` answers `SQLITE_OK` only with a handle.
abbrev pub OpenGivesHandle : Client → Type 0
OpenGivesHandle c =
    (calls : List Call) (path : Text)
    → (c.open_db calls path).0 ≡ true
    → is_some (c.open_db calls path).1 ≡ true

-- What a part of `DoConnect` does: it leaves the flag, ends with a handle exactly if it succeeds, and moves the
-- count of users from `n` by one exactly then.
abbrev pub Opens : ℕ → Sqlite → Bool × Sqlite → Type 0
Opens n db (r, db') =
    (db'.connected ≡ db.connected) × (owns db' ≡ r) × (db'.env.refcount ≡ n + one_if r)

pub write_log-same :
    (l : Level) (pieces : List Text) (db : Sqlite)
    → let db' = (write_log l pieces db).1 in
      (db'.connected ≡ db.connected)
      × (db'.own ≡ db.own)
      × (db'.env ≡ db.env)
      × (db'.prepared_stmts ≡ db.prepared_stmts)
unfolding write_log
write_log-same l pieces db = ground arith

module _ (c : Client) where
  open_failed-Opens :
      (h : Option ℕ) (n : ℕ) (db : Sqlite)
      → db.env.refcount ≡ n + 1
      → db.own.database ≡ h
      → Opens n db (open_failed c h db)
  unfolding open_failed release_library write_log
  open_failed-Opens none n db e q = ground arith
  open_failed-Opens (some h) n db e q = ground arith

  opened_well-Opens :
      (h : Option ℕ) (n : ℕ) (db : Sqlite)
      → db.env.refcount ≡ n + 1
      → db.own.database ≡ h
      → is_some h ≡ true
      → Opens n db (opened_well c h db)
  unfolding opened_well write_log
  opened_well-Opens none n db e q s = ground arith
  opened_well-Opens (some h) n db e q s = ground arith

  open_database-Opens :
      (n : ℕ) (db : Sqlite)
      → OpenGivesHandle c
      → db.env.refcount ≡ n + 1
      → Opens n db (open_database c db)
  unfolding open_database
  open_database-Opens n db g e =
      let path : Text = c_string db.own.file in
      let a : Bool × Option ℕ = c.open_db db.env.calls path in
      let d : Sqlite = (set_database a.1 (call (opens path) db).1).1 in
      elim (Bool-cases a.0) [
        | inl ok ↦
            rw (ok, open_database) (opened_well-Opens a.1 n d e refl (g db.env.calls path ok))
        | inr bad ↦ rw (bad, open_database) (open_failed-Opens a.1 n d e refl)
      ]

  acquired :
      (db : Sqlite)
      → let (r, db') = acquire_library c db in
        (db'.connected ≡ db.connected)
        × (db'.own ≡ db.own)
        × (db'.env.refcount ≡ db.env.refcount + one_if r)
  unfolding acquire_library write_log
  acquired db = ground arith

  connect_new-Opens :
      (db : Sqlite)
      → OpenGivesHandle c
      → let (r, db') = connect_new c db in
        (db'.connected ≡ db.connected)
        × (owns db ≡ false → owns db' ≡ r)
        × (db'.env.refcount ≡ db.env.refcount + one_if r)
  unfolding connect_new
  connect_new-Opens db g =
      let d : Sqlite = (acquire_library c db).1 in
      let n : ℕ = db.env.refcount in
      elim (Bool-cases (acquire_library c db).0) [
        | inl up ↦ rw (up, connect_new) (ground (arith, acquired db, open_database-Opens n d g))
        | inr down ↦ rw (down, connect_new) (ground (arith, acquired db))
      ]

  -- On a client that opens only with a handle, DoConnect of an SQLite object that is not connected and owns
  -- no handle ends with a handle exactly if it succeeds, and counts one more user of the library exactly
  -- then.
  pub do_connect-Opens :
      (db : Sqlite)
      → OpenGivesHandle c
      → db.connected ≡ false
      → owns db ≡ false
      → Opens db.env.refcount db (do_connect c db)
  unfolding do_connect
  do_connect-Opens db g n o =
      let d : Sqlite = (write_log low_level (text "SQLite3::DoConnect enter" ∷ []) db).1 in
      ground (
        arith,
        write_log-same low_level (text "SQLite3::DoConnect enter" ∷ []) db,
        connect_new-Opens d g,
      )

  pub do_connect_again :
      (db : Sqlite)
      → db.connected ≡ true
      → ((do_connect c db).0 ≡ false) × (owns (do_connect c db).1 ≡ owns db)
  unfolding do_connect
  do_connect_again db h =
      ground (arith, write_log-same low_level (text "SQLite3::DoConnect enter" ∷ []) db)

  pub do_connect-connected :
      (db : Sqlite) → OpenGivesHandle c → (do_connect c db).1.connected ≡ db.connected
  unfolding do_connect
  do_connect-connected db g =
      let d : Sqlite = (write_log low_level (text "SQLite3::DoConnect enter" ∷ []) db).1 in
      ground (
        arith,
        write_log-same low_level (text "SQLite3::DoConnect enter" ∷ []) db,
        connect_new-Opens d g,
      )
