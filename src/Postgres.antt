-- ===== src/Postgres.antt =====
-- The PostgreSQL backend: lib/optional/StormByte/database/postgres and lib/private/StormByte/database/postgres.
pub mod Client
pub mod Fetch
pub mod Statement
pub mod Members
pub mod Query
pub mod Connection
mod Examples
