-- ===== src/Keys/Distinct.antt =====
-- Keys of different kinds are different, so a command on one never touches another.
use ticket_booking.Base.{◌≢◌, Text, arith}
use ticket_booking.Keys.{
  queue_key, seat_hold_key, lock_reservation_key, cache_seats_key, cache_available_seats_key,
}

-- The key of an event's lock is none of the keys for the hold of a seat, the caches of seats
-- and the queue, whatever the identifiers are.
pub lock_reservation_key-distinct :
    (event_id other seat_id : Text)
    → (lock_reservation_key event_id ≢ seat_hold_key other seat_id)
      × (lock_reservation_key event_id ≢ cache_seats_key other)
      × (lock_reservation_key event_id ≢ cache_available_seats_key other)
      × (lock_reservation_key event_id ≢ queue_key other)
unfolding lock_reservation_key seat_hold_key cache_seats_key cache_available_seats_key queue_key
lock_reservation_key-distinct event_id other seat_id =
    (λ h. ground arith, λ h. ground arith, λ h. ground arith, λ h. ground arith)
