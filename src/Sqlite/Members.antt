-- ===== src/Sqlite/Members.antt =====
-- lib/optional/StormByte/database/sqlite/sqlite3.hxx and sqlite3.cxx: the members and the constructors.
use storm_byte_database.Prelude.{ℕ, Text, text, Bool, Option, none, [], ◌∷◌, Action}
use storm_byte_database.Database.{Db, create_db}
use storm_byte_database.Sqlite.Client.{Call, Env}
use storm_byte_database.Sqlite.Statement.{Stmt}

-- `m_database_file` and `m_database`.
pub record Own : Type 0 where
  pub file : Text
  pub database : Option ℕ

abbrev pub Sqlite : Type 0
Sqlite = Db Stmt Own Env

-- The constructors.
pub create_sqlite : Text → Bool → Env → Sqlite
create_sqlite file logger e = create_db logger (record { file = file; database = none }) e

pub create_in_memory : Bool → Env → Sqlite
unfolding create_sqlite
create_in_memory logger e = create_sqlite (text ":memory:") logger e

-- What the defaulted move constructor leaves of the members: the path is empty, and the handle, a plain pointer,
-- is still there.
unfoldable pub own_moved_from : Own → Own
own_moved_from own = record own { file = [] }

unfoldable pub call : Call → Action Sqlite (Unit {0})
call c db = (tt, record db { env = record db.env { calls = c ∷ db.env.calls } })

unfoldable pub set_database : Option ℕ → Action Sqlite (Unit {0})
set_database h db = (tt, record db { own = record db.own { database = h } })

unfoldable pub set_refcount : ℕ → Action Sqlite (Unit {0})
set_refcount n db = (tt, record db { env = record db.env { refcount = n } })
