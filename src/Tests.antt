-- ===== src/Tests.antt =====
-- Runs of the model at concrete inputs, and the theorems applied there.
pub mod Local
pub mod Devices
mod Bookings
mod Witnesses
mod Histories
mod Services
mod Lookups
mod Seeding
mod Locks
