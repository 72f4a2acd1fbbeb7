-- ===== src/Lib.antt =====
-- StormByte-Database: a C++ library that gives SQLite, PostgreSQL and MariaDB one interface.
--
-- The parts, from the repository's root, and the files that model them:
-- - lib/public/StormByte/database/value.hxx, typedefs.hxx: the type-erased SQL value. Value.antt has the variant
--   `Value` and its equality, Convert.antt the checked conversions of `Get<T>`.
-- - named_value.hxx, row.hxx, row.cxx, rows.hxx beside it: result rows with a lazy name index. Row.antt, Rows.antt.
-- - exception.hxx, the exceptions, as constructors of `Exception` in Exception.antt, and their texts in
--   Exception/Messages.antt.
-- - prepared_stmt.hxx, `Execute` as a template method. Statement.antt; a backend's virtual methods are the record
--   `Virtuals`, and Statement/Contract.antt says what they promise of bindings.
-- - transaction.hxx, transaction.cxx: the RAII transaction. Transaction.antt has its methods, Transaction/Store.antt
--   programs over several objects; Session.antt carries their calls out on a database, Session/Sending.antt is the
--   contract of what a backend sends for them, which the modules named Transactions of the backends fill.
-- - database.hxx, database.cxx: connecting, the registry of statements, transactions. Database.antt, over the virtual
--   methods of a backend, the record `Backend`; Database/Lifecycle.antt and Database/Registry.antt have the contracts.
--   Database/Steady.antt, Lifetime.antt and Handles.antt beside it follow an object through its whole life; the modules
--   named Accounts of the backends count the connections that a client library gives out and takes back, those named
--   Handles the statements, and Postgres/Connection/Clearing.antt the results.
-- - lib/optional/StormByte/database/sqlite and lib/private/StormByte/database/sqlite: the SQLite backend. Sqlite.antt
--   and its children: Client (the C library), Fetch (`StepResults`), Statement (`PreparedSTMT`), and Members, Query and
--   Connection (`SQLite3`).
-- - the same directories of postgres: Postgres.antt, with the same children.
-- - the same directories of mariadb: MariaDb.antt, with the same children, where Construct has the constructors of a
--   statement, Buffers the buffers of its columns, and Output the second half of `DoExecute`, which fetches its rows.
-- - Decimal.antt and Trim.antt model what the backends use of the C++ library on text, Columns.antt the loop over
--   the columns of a row and Collect.antt that over the rows, which result fetchers share.
--
-- How state is modelled. A method of an object is an `Action` on the object's members and on what lies outside it: for
-- a backend, the calls to the client library, newest first. The answers of a client library are a parameter that may
-- depend on all calls so far, so it can fail at any call. The base library's `Iterable` is a parameter with the law
-- of `add`; a logger is known by the lines written to it. Pointers of the PostgreSQL parameter array refer to modelled
-- storage, with the growth of `std::vector` and the short strings of libstdc++. The MariaDB connector is taken to copy
-- the array of bound columns, and to read a bound number as signed where `is_unsigned` is not set.
--
-- Integers are those of a platform with 32-bit `int` and 64-bit `long`; a double is a signed integer times a power of
-- two, an infinity or a NaN. The result of a cast from a double beyond `intmax_t`, which the language leaves open, is
-- a parameter.
--
-- Fuel. The step loop of SQLite and the fetch loop of MariaDB run on the client's bound of the rows that are left, which
-- a finite result lowers at each row; the digits of a number run on the number itself.
--
-- Not modelled: how the base library joins the component and the text of an exception, the mutex around the count of
-- SQLite's users (the calls are one after the other), `std::stod` (a parameter), the exception ConnectionError, which
-- nothing uses, tests and build files.
pub mod Collect
pub mod Columns
pub mod Convert
pub mod Database
pub mod Decimal
pub mod Exception
pub mod MariaDb
pub mod Postgres
pub mod Prelude
pub mod Row
pub mod Rows
pub mod Session
pub mod Sqlite
pub mod Statement
pub mod Transaction
pub mod Trim
pub mod Value
