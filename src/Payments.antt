-- ===== src/Payments.antt =====
-- apps/core-api/src/services/payment_service.py and repositories/payment_repository.py.
pub mod Checks
pub mod Settlement
pub mod Charging
use ticket_booking.Base.{ℕ, not, Bool, Text, ltb, text_eq, ◌==◌, if◌then◌else◌}
use ticket_booking.Exceptions.{
  value_error, reservation_not_found, business_logic, reservation_expired, payment_amount_mismatch,
  integrity_error,
}
use ticket_booking.Models.{Reservation, is_held, Payment, PaymentStatus, pending, completed, failed}
use ticket_booking.Env.{Env}
use ticket_booking.Action.{
  Action, ◌>>=◌, ◌>>◌, pure, raise, or_raise, query, external, raise_if, change, commit,
}
use ticket_booking.Repositories.Reads.{get_reservation_by_id, get_payment_by_id, seats_in}
use ticket_booking.Repositories.Writes.{can_pay, add_payment, set_payment_status}
use ticket_booking.Reservations.Common.{parse_all, total_price}
use ticket_booking.Reservations.Finish.{is_other, complete_reservation}

module _ (env : Env) where
  -- The checks of `process_payment`.
  unfoldable pub check_payment : Text → ℕ → ℕ → Action env ℕ
  check_payment user_id reservation_id amount = do
    user_uuid ← or_raise (env.uuid_parse user_id) value_error
    found ← query (get_reservation_by_id env reservation_id)
    reservation ← or_raise found reservation_not_found
    raise_if (is_other env reservation user_id) reservation_not_found
    raise_if (not (is_held reservation.status)) business_logic
    now ← external env env.utcnow
    raise_if (ltb reservation.expires_at now) reservation_expired
    ids ← or_raise (parse_all env reservation.seat_ids) value_error
    seats ← query (seats_in env ids)
    raise_if (not (amount == total_price seats)) payment_amount_mismatch
    pure user_uuid

  -- `PaymentRepository.create`; the flush checks the table's constraints.
  unfoldable pub create_payment : ℕ → ℕ → ℕ → Text → Action env Payment
  create_payment reservation_id user_id amount payment_method = do
    payment_id ← external env env.uuid4
    created_at ← external env env.utcnow
    let payment =
        let p : Payment = record {
          payment_id = payment_id;
          reservation_id = reservation_id;
          user_id = user_id;
          amount = amount;
          status = pending;
          payment_method = payment_method;
          created_at = created_at;
        } in
        p
    accepted ← query (can_pay payment)
    raise_if (not accepted) integrity_error
    change (add_payment payment)
    pure payment

  -- What follows the reply of the payment gateway.
  unfoldable pub settle_payment : Payment → ℕ → Bool → Action env Payment
  settle_payment payment reservation_id pg_success =
      if pg_success
      then (do
        complete_reservation env reservation_id
        change (set_payment_status completed payment.payment_id)
        commit
        pure (record payment { status = completed }))
      else (do change (set_payment_status failed payment.payment_id); commit; raise business_logic)

  -- `PaymentService.process_payment`
  unfoldable pub process_payment : Text → ℕ → Text → ℕ → Action env Payment
  process_payment user_id reservation_id payment_method amount = do
    user_uuid ← check_payment user_id reservation_id amount
    payment ← create_payment reservation_id user_uuid amount payment_method
    commit
    pg_success ← external env env.lucky
    settle_payment payment reservation_id pg_success

  -- `PaymentService.get_payment`
  unfoldable pub get_payment : ℕ → Text → Action env Payment
  get_payment payment_id user_id = do
    found ← query (get_payment_by_id env payment_id)
    payment ← or_raise found reservation_not_found
    raise_if (not (text_eq (env.uuid_str payment.user_id) user_id)) reservation_not_found
    pure payment
