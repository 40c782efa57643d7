-- ===== src/History.antt =====
-- What the booking part of apps/core-api/src promises of its database, as a relation with no lock, no
-- query, no session and no exception: the moves that committed tables may make.
pub mod Moves
pub mod Calls
pub mod Serving
pub mod Frame
pub mod Finality
pub mod Charges
pub mod Exact
pub mod Sales
