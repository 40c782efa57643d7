-- ===== src/Repositories.antt =====
-- apps/core-api/src/repositories: the queries and writes of the services on the tables.
pub mod Writes
pub mod Reads
pub mod SeatUpdates
