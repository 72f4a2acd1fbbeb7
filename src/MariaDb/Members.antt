-- ===== src/MariaDb/Members.antt =====
-- lib/optional/StormByte/database/mariadb/mariadb.hxx and mariadb.cxx: the members and the constructors.
use storm_byte_database.Prelude.{ℕ, Text, Bool, Option, none, some, List, ◌∷◌, Action}
use storm_byte_database.Prelude.Words.{c_string}
use storm_byte_database.Database.{Db, create_db}
use storm_byte_database.MariaDb.Client.{Call}
use storm_byte_database.MariaDb.Statement.{Stmt}

-- The members `m_host`, `m_user`, `m_password`, `m_dbname`, `m_port` and `m_conn`.
pub record Own : Type 0 where
  pub host : Text
  pub user : Text
  pub password : Text
  pub dbname : Text
  pub port : ℕ
  pub conn : Option ℕ

abbrev pub MariaDb : Type 0
MariaDb = Db Stmt Own (List Call)

-- The constructors, for a port that is not negative.
pub create_mariadb : Text → Text → Text → Text → ℕ → Bool → List Call → MariaDb
create_mariadb host user password dbname port logger calls =
    create_db logger
      (record {
        host = host;
        user = user;
        password = password;
        dbname = dbname;
        port = port;
        conn = none;
      })
      calls

unfoldable pub call : Call → Action MariaDb (Unit {0})
call c db = (tt, record db { env = c ∷ db.env })

unfoldable pub set_conn : Option ℕ → Action MariaDb (Unit {0})
set_conn h db = (tt, record db { own = record db.own { conn = h } })

-- `mysql_error(conn) ? mysql_error(conn) : unknown`
unfoldable pub error_text : Text → Option Text → Text
error_text unknown none = unknown
error_text unknown (some m) = c_string m
