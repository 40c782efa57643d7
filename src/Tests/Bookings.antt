-- ===== src/Tests/Bookings.antt =====
-- Reservations and payments at concrete inputs.
use ticket_booking.Base.{◌≡◌, refl, List, [], ◌∷◌, map}
use ticket_booking.Exceptions.{err, seat_not_available, duplicate_reservation}
use ticket_booking.Models.{
  SeatStatus, available, hold, sold, held, completed, Tables, ReservationStatus,
}
use ticket_booking.Lock.{
  reservation_lock, settle, release, release_value, acquire_reservation_lock, acquire, attempts,
  back_off, release_script,
}
use ticket_booking.Repositories.Reads.{
  get_reservation_by_id, get_held_by_user_and_event, seats_of_event, seats_in,
}
use ticket_booking.Repositories.Writes.{
  update_seat, update_seats, hold_seat, clear_seat, can_reserve, add_reservation,
  set_reservation_status, write_seats, can_pay, add_payment, set_payment_status,
}
use ticket_booking.Reservations.Common.{
  to_response, parse_all, publish_seat_update, announce, finish,
}
use ticket_booking.Reservations.Hold.{
  hold_seats, hold_locked, hold_available, take_seats, create, refuse_duplicate,
}
use ticket_booking.Reservations.Finish.{complete_reservation, check_complete, complete_checked}
use ticket_booking.Payments.{process_payment, check_payment, create_payment, settle_payment}
use ticket_booking.Tests.Local.{local_env, world, at_time, empty_tables, booked_tables}

abbrev statuses : Tables → List SeatStatus
statuses t = map (λ s. s.status) t.seats

abbrev endings : Tables → List ReservationStatus
endings t = map (λ r. r.status) t.reservations

-- A hold of two free seats.
hold_two :
    let x =
      hold_seats local_env (1 ∷ []) (9 ∷ []) (21 ∷ 23 ∷ []) (world empty_tables (at_time 0)) in
    (statuses x.1.session.committed ≡ hold ∷ available ∷ hold ∷ [])
    × (endings x.1.session.committed ≡ held ∷ [])
unfolding hold_seats hold_locked hold_available take_seats create refuse_duplicate reservation_lock
    settle release release_value acquire_reservation_lock acquire attempts back_off release_script
    get_held_by_user_and_event seats_of_event update_seat update_seats hold_seat can_reserve
    add_reservation write_seats publish_seat_update to_response
hold_two = (refl, refl)

-- The same user may not hold twice for an event, nor take a seat that is held.
hold_again :
    ((hold_seats local_env (1 ∷ []) (9 ∷ []) (22 ∷ []) (world booked_tables (at_time 0))).0
      ≡ err duplicate_reservation)
    × ((hold_seats local_env (2 ∷ []) (9 ∷ []) (21 ∷ []) (world booked_tables (at_time 0))).0
        ≡ err seat_not_available)
unfolding hold_seats hold_locked hold_available take_seats create refuse_duplicate reservation_lock
    settle release release_value acquire_reservation_lock acquire attempts back_off release_script
    get_held_by_user_and_event seats_of_event update_seat update_seats hold_seat can_reserve
    add_reservation write_seats publish_seat_update to_response
hold_again = (refl, refl)

-- A payment of the right amount sells the seats.
pay_right :
    let x = process_payment local_env (1 ∷ []) 50 [] 14_000 (world booked_tables (at_time 0)) in
    (statuses x.1.session.committed ≡ sold ∷ available ∷ sold ∷ [])
    × (endings x.1.session.committed ≡ completed ∷ [])
unfolding process_payment check_payment create_payment settle_payment complete_reservation
    check_complete complete_checked finish announce parse_all get_reservation_by_id seats_in
    reservation_lock settle release release_value acquire_reservation_lock acquire attempts back_off
    release_script update_seat update_seats clear_seat set_reservation_status can_pay add_payment
    set_payment_status write_seats publish_seat_update
pay_right = (refl, refl)
