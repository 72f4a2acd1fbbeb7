-- ===== src/MariaDb.antt =====
-- The MariaDB backend: lib/optional/StormByte/database/mariadb and lib/private/StormByte/database/mariadb.
pub mod Client
pub mod Fetch
pub mod Statement
pub mod Buffers
pub mod Output
pub mod Members
pub mod Construct
pub mod Query
pub mod Connection
mod Examples
