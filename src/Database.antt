-- ===== src/Database.antt =====
-- lib/public/StormByte/database/database.hxx and database.cxx: the template methods of `Database` over
-- the virtual methods of a backend. `P` is the backend's prepared statement, `W` its own members, and
-- `E` what lies outside the object: the client library and the globals. A logger is known by what is
-- written to it.
pub mod Lifecycle
pub mod Registry
pub mod Programs
pub mod Steady
pub mod Lifetime
pub mod Handles
use storm_byte_database.Prelude.{
  ℕ, Text, text, Bool, true, false, Option, none, some, List, [], ◌∷◌, lookup, emplace, store,
  Action, pure, gets, modify, when, ◌>>=◌, ◌>>◌, if◌then◌else◌,
}
use storm_byte_database.Exception.{Exception, ok, err}
use storm_byte_database.Value.{Value}
use storm_byte_database.Rows.{ExpectedRows}
use storm_byte_database.Statement.{Virtuals, execute}
use storm_byte_database.Transaction.{Transaction, transaction}

pub data SslMode : Type 0 where
  default disable prefer require : SslMode

pub data IsolationLevel : Type 0 where
  default read_uncommitted read_committed repeatable_read serializable : IsolationLevel

pub data Level : Type 0 where
  low_level debug notice error : Level

-- What one statement `*m_logger << level << …` writes.
pub record LogLine : Type 0 where
  pub level : Level
  pub pieces : List Text

-- The members of `Database`, those of the derived class, and the surroundings. The log is newest first.
pub record Db (P W E : Type 0) : Type 0 where
  pub has_logger : Bool
  pub prepared_stmts : List (Text × P)
  pub connected : Bool
  pub ssl_mode : SslMode
  pub log : List LogLine
  pub own : W
  pub env : E

-- The constructor of `Database`.
unfoldable pub create_db : {P W E : Type 0} → Bool → W → E → Db P W E
create_db logger w e = record {
  has_logger = logger;
  prepared_stmts = [];
  connected = false;
  ssl_mode = SslMode.default;
  log = [];
  own = w;
  env = e;
}

-- The move constructor, which is defaulted: what the old object holds then, where `gone` is what the members of the
-- derived class are left as. The new object holds what the old one did.
unfoldable pub moved_from : {P W E : Type 0} → (W → W) → Db P W E → Db P W E
moved_from gone db = record db { has_logger = false; prepared_stmts = []; own = gone db.own }

-- `if (m_logger) *m_logger << …`
unfoldable pub write_log : {P W E : Type 0} → Level → List Text → Action (Db P W E) (Unit {0})
write_log level pieces db = (
  tt,
  if db.has_logger
      then record db { log = record { level = level; pieces = pieces } ∷ db.log }
      else db,
)

-- The virtual methods of a backend, and the destructor of its statements.
pub record Backend (P W E : Type 0) : Type 0 where
  pub do_pre_connect : Action (Db P W E) (Unit {0})
  pub do_connect : Action (Db P W E) Bool
  pub do_post_connect : Action (Db P W E) (Unit {0})
  pub do_pre_disconnect : Action (Db P W E) (Unit {0})
  pub do_disconnect : Action (Db P W E) (Unit {0})
  pub do_post_disconnect : Action (Db P W E) (Unit {0})
  pub create_stmt : Text → Text → Action (Db P W E) (Option P)
  pub destroy_stmt : P → Action (Db P W E) (Unit {0})
  pub do_begin : IsolationLevel → Action (Db P W E) (Unit {0})
  pub do_silent_query : Text → Action (Db P W E) Bool
  pub query : Text → Action (Db P W E) ExpectedRows
  pub silent_query : Text → Action (Db P W E) Bool
  pub statement : Virtuals P E

-- `GetSslMode` and `SetSslMode`
pub get_ssl_mode : {P W E : Type 0} → Db P W E → SslMode
get_ssl_mode db = db.ssl_mode

pub set_ssl_mode : {P W E : Type 0} → SslMode → Db P W E → Db P W E
set_ssl_mode mode db = record db { ssl_mode = mode }

-- `IsConnected`
pub is_connected : {P W E : Type 0} → Db P W E → Bool
is_connected db = db.connected

module _ {P W E : Type 0} (b : Backend P W E) where
  -- `Database::Connect`
  pub connect : Action (Db P W E) Bool
  connect = do
    write_log Level.low_level (text "Connect enter" ∷ [])
    b.do_pre_connect
    result ← b.do_connect
    when result (do modify (λ db. record db { connected = true }); b.do_post_connect)
    write_log Level.low_level
        (text "Connect leave (" ∷ (if result then text "ok" else text "fail") ∷ text ")" ∷ [])
    pure result

  -- `Database::Disconnect`
  unfoldable pub disconnect : Action (Db P W E) (Unit {0})
  disconnect = do
    write_log Level.low_level (text "Disconnect enter" ∷ [])
    b.do_pre_disconnect
    b.do_disconnect
    b.do_post_disconnect
    modify (λ db. record db { connected = false })
    write_log Level.low_level (text "Disconnect leave" ∷ [])

  -- `m_prepared_stmts.emplace(prepared->Name(), std::move(prepared))`: a statement whose name is taken
  -- is destroyed.
  register : P → Action (Db P W E) (Unit {0})
  register p = do
    let name = b.statement.name p
    taken ← gets (λ db. lookup name db.prepared_stmts)
    modify (λ db. record db { prepared_stmts = emplace name p db.prepared_stmts })
    elim taken [ none ↦ pure tt | some q ↦ b.destroy_stmt p ]

  -- `if (prepared) …`
  register_if_made : Option P → Action (Db P W E) (Unit {0})
  register_if_made none = pure tt
  register_if_made (some p) = register p

  -- `Database::DoPrepareSTMT`
  pub do_prepare_stmt : Text → Text → Action (Db P W E) (Unit {0})
  unfolding register_if_made
  do_prepare_stmt name query = do
    write_log Level.debug (text "Preparing statement '" ∷ name ∷ text "': " ∷ query ∷ [])
    prepared ← b.create_stmt name query
    register_if_made prepared

  -- `Database::PrepareSTMT`
  pub prepare_stmt : Text → Text → Action (Db P W E) (Unit {0})
  unfolding do_prepare_stmt
  prepare_stmt name query = do_prepare_stmt name query

  -- `Database::ExecuteSTMT`
  pub execute_stmt : Text → List Value → Action (Db P W E) ExpectedRows
  execute_stmt name args db = elim (lookup name db.prepared_stmts) [
    | none ↦ (err (Exception.unknown_stmt name), db)
    | some p ↦
        let (result, (p', e')) = execute b.statement args (p, db.env) in
        (result, record db { prepared_stmts = store name p' db.prepared_stmts; env = e' })
  ]

  -- `Database::BeginTransaction` on the database at this address.
  unfoldable pub begin_transaction : ℕ → IsolationLevel → Action (Db P W E) Transaction
  begin_transaction self level = do
    write_log Level.debug (text "BeginTransaction" ∷ [])
    b.do_begin level
    pure (transaction self)

  -- `Database::CommitTransaction` and `RollbackTransaction`: what the query answers is dropped.
  unfoldable pub commit_transaction : Action (Db P W E) (Unit {0})
  commit_transaction = do
    write_log Level.debug (text "CommitTransaction" ∷ [])
    b.do_silent_query (text "COMMIT;")
    pure tt

  unfoldable pub rollback_transaction : Action (Db P W E) (Unit {0})
  rollback_transaction = do
    write_log Level.debug (text "RollbackTransaction" ∷ [])
    b.do_silent_query (text "ROLLBACK;")
    pure tt
