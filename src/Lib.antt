-- ===== src/Lib.antt =====
-- Redka: a verification library for the Redis-like store on SQLite.
--
-- The program keeps keys, strings, hashes and sorted sets in four SQL tables. The repositories
-- (internal/rkey, internal/rstring, internal/rhash, internal/rzset) are SQL statements with Go code
-- around them; internal/sqlx runs functions in transactions; internal/server takes requests from a connection,
-- queues them after MULTI and runs them alone or, at EXEC, in one transaction.
--
-- Files and the code that they model:
--   Core, Core/Values, Core/Decimal   internal/core/core.go; strconv.Atoi and the decimal text
--   Schema                            internal/sqlx/schema.sql: tables as lists of rows, their
--                                     unique indexes, the cascade and the trigger on the type
--   Schema/Valid, View, Upsert        the invariant of the tables, and the statements read
--                                     through the indexes
--   Sqlx, Sqlx/Keeps                  internal/sqlx: TypedError and execTx
--   Rkey and its modules              internal/rkey: tx.go, and db.go in Rkey/Database
--   Rstring and its modules           internal/rstring: tx.go, and db.go in Rstring/Database
--   Rhash and its modules             internal/rhash: tx.go, scanner.go in Rhash/Scan, and db.go in
--                                     Rhash/Database
--   Rzset and its modules             internal/rzset: tx.go, range.go in Rzset/Range, delete.go in
--                                     Rzset/Removal, inter.go and union.go in Rzset/Combine,
--                                     scanner.go in Rzset/Scan, db.go in Rzset/Database
--   Scanner                           what the three scanners have in common
--   Reply, Server and its modules     internal/command/a.go (Writer), internal/server
--   Command and its modules           internal/command: Parse and Run of every command
--   System and its modules            the connections of the server over shared tables, and the
--                                     background purge of redka.go, as steps in any order
--   Base, Table, Samples              shared helpers, tables with a unique column, test data
--
-- An operation is a function of the tables; one that may fail returns a Result beside them. Each
-- reading of the clock is an argument of its own, in the order of the code, so that a key may
-- expire between two statements of one operation. Times are nanoseconds, as integers without a
-- bound; the sums of INCR and HINCRBY are wrapped to 64 bits. A byte slice is a text with a
-- character for each byte. Loops are structural; the digits of a number have fuel that the round
-- trip of the decimal text proves to be enough. A loop over a scanner has as many rounds as there
-- are rows, and one.
--
-- Parameters: the driver and SQLite's functions (how a stored value is read back, and which values
-- are bound as null, which the columns of values refuse; glob, floats),
-- as the record Driver with the laws that the code relies on; the answers of begin and commit;
-- strings.ToLower, the order of iteration over a map and the draw of RANDOMKEY, as the record
-- Runtime; SQLite's comparison of elements and scores, what it makes of a NaN, its sums and its
-- aggregates, as the record SetDriver with the laws of an order. The server takes its commands as
-- the record Commands, which Command/Redka fills. An error of the driver inside a statement other
-- than the type trigger (a full disk, a lost connection) is not modelled.
--
-- Not modelled: what else redka.go does, which is to pass calls on to the repositories, and the
-- programs under cmd; the handlers of two connections that run at the same time, whose transactions
-- may alternate (in System the handlers of a request are one step);
-- errors of a query while its rows are read; and which of two numbers that SQLite finds equal, an
-- integer and a float, is read back as an element of a sorted set.
pub mod Base
pub mod Samples
pub mod Table
pub mod Core
pub mod Schema
pub mod Sqlx
pub mod Scanner
pub mod Rkey
pub mod Rstring
pub mod Rhash
pub mod Rzset
pub mod Reply
pub mod Server
pub mod Command
pub mod System
