-- ===== src/Reservations/Finish.antt =====
-- The operations of ReservationService on one reservation: read, cancel, complete.
use ticket_booking.Base.{ℕ, not, Bool, Text, text_eq, ltb}
use ticket_booking.Exceptions.{
  value_error, seat_not_available, reservation_not_found, reservation_expired,
}
use ticket_booking.Models.{Reservation, available, sold, is_held, completed, cancelled}
use ticket_booking.Env.{Env}
use ticket_booking.Action.{Action, ◌>>=◌, ◌>>◌, pure, or_raise, query, external, raise_if}
use ticket_booking.Lock.{reservation_lock}
use ticket_booking.Repositories.Reads.{get_reservation_by_id, seats_in}
use ticket_booking.Reservations.Common.{
  ReservationResponse, to_response, total_price, parse_all, finish,
}

module _ (env : Env) where
  -- `str(reservation.user_id) != user_id`
  abbrev pub is_other : Reservation → Text → Bool
  is_other r user_id = not (text_eq (env.uuid_str r.user_id) user_id)

  -- The checks of `cancel_reservation`, made before it takes the lock.
  unfoldable pub check_cancel : ℕ → Text → Action env Reservation
  check_cancel reservation_id user_id = do
    found ← query (get_reservation_by_id env reservation_id)
    reservation ← or_raise found reservation_not_found
    raise_if (is_other reservation user_id) reservation_not_found
    raise_if (not (is_held reservation.status)) seat_not_available
    pure reservation

  -- The rest of `cancel_reservation`.
  unfoldable pub cancel_checked : Reservation → Action env ReservationResponse
  cancel_checked reservation = do
    let event_id = env.uuid_str reservation.event_id
    seats ← reservation_lock env event_id (finish env event_id reservation available cancelled)
    pure (to_response (record reservation { status = cancelled }) (total_price seats))

  -- `ReservationService.cancel_reservation`
  unfoldable pub cancel_reservation : ℕ → Text → Action env ReservationResponse
  cancel_reservation reservation_id user_id = do
    reservation ← check_cancel reservation_id user_id
    cancel_checked reservation

  -- `ReservationService.get_reservation`
  unfoldable pub get_reservation : ℕ → Text → Action env ReservationResponse
  get_reservation reservation_id user_id = do
    found ← query (get_reservation_by_id env reservation_id)
    reservation ← or_raise found reservation_not_found
    raise_if (is_other reservation user_id) reservation_not_found
    ids ← or_raise (parse_all env reservation.seat_ids) value_error
    seats ← query (seats_in env ids)
    pure (to_response reservation (total_price seats))

  -- The checks of `complete_reservation`, made before it takes the lock.
  unfoldable pub check_complete : ℕ → Action env Reservation
  check_complete reservation_id = do
    found ← query (get_reservation_by_id env reservation_id)
    reservation ← or_raise found reservation_not_found
    raise_if (not (is_held reservation.status)) reservation_not_found
    now ← external env env.utcnow
    raise_if (ltb reservation.expires_at now) reservation_expired
    pure reservation

  -- The rest of `complete_reservation`.
  unfoldable pub complete_checked : Reservation → Action env Reservation
  complete_checked reservation = do
    let event_id = env.uuid_str reservation.event_id
    reservation_lock env event_id (finish env event_id reservation sold completed)
    pure (record reservation { status = completed })

  -- `ReservationService.complete_reservation`
  unfoldable pub complete_reservation : ℕ → Action env Reservation
  complete_reservation reservation_id = do
    reservation ← check_complete reservation_id
    complete_checked reservation
