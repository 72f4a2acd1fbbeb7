-- ===== src/Postgres/Members.antt =====
-- lib/optional/StormByte/database/postgres/postgres.hxx and postgres.cxx: the members and the constructors.
use storm_byte_database.Prelude.{ℕ, Text, Bool, Option, none, List, ◌∷◌, Action}
use storm_byte_database.Database.{Db, create_db}
use storm_byte_database.Postgres.Client.{Call}
use storm_byte_database.Postgres.Statement.{Stmt}

-- The members `m_host`, `m_user`, `m_password`, `m_dbname` and `m_conn`.
pub record Own : Type 0 where
  pub host : Text
  pub user : Text
  pub password : Text
  pub dbname : Text
  pub conn : Option ℕ

abbrev pub Postgres : Type 0
Postgres = Db Stmt Own (List Call)

-- The constructors.
pub create_postgres : Text → Text → Text → Text → Bool → List Call → Postgres
create_postgres host user password dbname logger calls =
    create_db logger
      (record { host = host; user = user; password = password; dbname = dbname; conn = none }) calls

unfoldable pub call : Call → Action Postgres (Unit {0})
call c db = (tt, record db { env = c ∷ db.env })

unfoldable pub set_conn : Option ℕ → Action Postgres (Unit {0})
set_conn h db = (tt, record db { own = record db.own { conn = h } })
