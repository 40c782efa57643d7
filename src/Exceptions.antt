-- ===== src/Exceptions.antt =====
-- The exceptions that the services raise (apps/core-api/src/exceptions/custom_exceptions.py,
-- LockAcquireError of redis/lock.py, PaymentAmountMismatchError of services/payment_service.py),
-- with those that their calls of the standard library, Redis and the database raise.
use ticket_booking.Base.{ℕ}

pub data Error : Type 0 where
  business_logic seat_not_available event_not_found reservation_not_found : Error
  duplicate_reservation reservation_expired payment_amount_mismatch : Error
  lock_acquire : Error
  value_error key_error redis_error integrity_error object_deleted : Error
  -- FastAPI's own, with its status code; 422 is for a body that the schema refuses.
  http_exception : ℕ → Error

pub data Result {ℓ} (A : Type ℓ) : Type ℓ where
  ok : A → Result A
  err : Error → Result A
