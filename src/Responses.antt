-- ===== src/Responses.antt =====
-- apps/core-api/src/middleware/error_handler.py: how a call's result becomes a response.
use ticket_booking.Base.{ℕ, Bool, true, false, Text, codes, ◌≡◌, ◌≢◌, arith, [], ◌⊎◌, ◌↔◌}
use ticket_booking.Exceptions.{
  Error, Result, ok, err, business_logic, seat_not_available, event_not_found,
  reservation_not_found, duplicate_reservation, reservation_expired, payment_amount_mismatch,
  lock_acquire, key_error, value_error, redis_error, integrity_error, object_deleted,
  http_exception,
}

-- The classes of exceptions that the handler tells apart.
unfoldable pub is_business : Error → Bool
is_business business_logic = true
is_business seat_not_available = true
is_business event_not_found = true
is_business reservation_not_found = true
is_business duplicate_reservation = true
is_business reservation_expired = true
is_business payment_amount_mismatch = true
is_business _ = false

-- A JSON response: its status code, its message, and whether it names the error.
pub record ErrorResponse : Type 0 where
  pub code : ℕ
  pub message : Text
  pub has_error : Bool

-- The `except` clauses in their order; FastAPI answers its own exceptions before they get here.
unfoldable pub respond_error : Error → ErrorResponse
respond_error reservation_expired = record {
  code = 410;
  message = codes "Reservation expired";
  has_error = true;
}
respond_error value_error = record { code = 400; message = codes "Bad request"; has_error = true }
respond_error key_error = record {
  code = 500;
  message = codes "Internal server error";
  has_error = false;
}
respond_error lock_acquire = record {
  code = 500;
  message = codes "Internal server error";
  has_error = false;
}
respond_error redis_error = record {
  code = 500;
  message = codes "Internal server error";
  has_error = false;
}
respond_error integrity_error = record {
  code = 500;
  message = codes "Internal server error";
  has_error = false;
}
respond_error object_deleted = record {
  code = 500;
  message = codes "Internal server error";
  has_error = false;
}
respond_error (http_exception status_code) = record {
  code = status_code;
  message = [];
  has_error = true;
}
respond_error _ = record { code = 409; message = codes "Conflict"; has_error = true }

pub data Response (A : Type 0) : Type 0 where
  replied : ℕ → A → Response A
  failed : ErrorResponse → Response A

-- `ErrorHandlerMiddleware.dispatch`, on a handler that answers with `status_code`.
unfoldable pub dispatch : {A : Type 0} → ℕ → Result A → Response A
dispatch status_code (ok a) = replied status_code a
dispatch status_code (err e) = failed (respond_error e)

-- The status is 409 exactly for the business exceptions other than an expired reservation, a
-- missing reservation included, and for a 409 that FastAPI raises itself.
pub respond_error-code_iff :
    (e : Error)
    → ((respond_error e).code ≡ 409)
      ↔ (((is_business e ≡ true) × (e ≢ reservation_expired)) ⊎ (e ≡ http_exception 409))
unfolding respond_error is_business
respond_error-code_iff e = ground arith
