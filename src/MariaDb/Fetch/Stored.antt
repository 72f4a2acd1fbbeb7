-- ===== src/MariaDb/Fetch/Stored.antt =====
-- `StepResults` of MariaDB gives every row of a stored result, in order.
use storm_byte_database.Rows.{Rows}
use storm_byte_database.MariaDb.Client.{Client}
