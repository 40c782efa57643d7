-- ===== src/Cleaning.antt =====
-- That the release loops of services/reservation_service.py do their work where nothing fails.
pub mod Quiet
pub mod Locking
pub mod Sizes
pub mod Rounds
pub mod Sweep
pub mod Expiry
