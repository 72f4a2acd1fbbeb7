-- ===== src/Sqlite.antt =====
-- The SQLite backend: lib/optional/StormByte/database/sqlite and lib/private/StormByte/database/sqlite.
pub mod Client
pub mod Fetch
pub mod Statement
pub mod Members
pub mod Query
pub mod Connection
mod Examples
