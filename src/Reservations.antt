-- ===== src/Reservations.antt =====
-- apps/core-api/src/services/reservation_service.py: seats are held for a user, then given back or
-- sold.
pub mod Common
pub mod Hold
pub mod Finish
pub mod Release
pub mod Counting
pub mod Booking
pub mod Consistency
pub mod Effects
pub mod Ending
pub mod Atomicity
pub mod Cancellation
pub mod Completion
pub mod Taking
pub mod Holding
pub mod HoldCall
pub mod Steadiness
pub mod Releasing
