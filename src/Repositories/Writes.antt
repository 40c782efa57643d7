-- ===== src/Repositories/Writes.antt =====
-- The writes of the repositories and services as functions on the tables. An object's attributes
-- that are assigned become an UPDATE of the row with its primary key.
use ticket_booking.Base.{
  ℕ, Bool, some, none, List, ◌∷◌, map, foldl, not, any, ◌&&◌, ◌==◌, if◌then◌else◌,
}
use ticket_booking.Models.{
  Seat, SeatStatus, hold, Reservation, ReservationStatus, Payment, PaymentStatus, Tables,
}

-- `UPDATE seats SET … WHERE seat_id = k`
unfoldable pub update_seat : (Seat → Seat) → ℕ → List Seat → List Seat
update_seat f k = map (λ s. if s.seat_id == k then f s else s)

-- `for seat in seats: …`, over the primary keys of the seats.
unfoldable pub update_seats : (Seat → Seat) → List ℕ → List Seat → List Seat
unfolding update_seat
update_seats f ids seats = foldl (λ rows k. update_seat f k rows) seats ids

-- The assignments of `hold_seats`.
unfoldable pub hold_seat : ℕ → ℕ → Seat → Seat
hold_seat user_uuid hold_until s = record s {
  status = hold;
  held_by = some user_uuid;
  held_until = some hold_until;
}

-- The assignments that end a hold, with the new status.
unfoldable pub clear_seat : SeatStatus → Seat → Seat
clear_seat new_status s = record s { status = new_status; held_by = none; held_until = none }

-- The constraints that the insert of a reservation is checked by: a new primary key, and a user and
-- an event that exist.
unfoldable pub can_reserve : Reservation → Tables → Bool
can_reserve r t =
    not (any (λ x. x.reservation_id == r.reservation_id) t.reservations)
    && (any (λ u. u.user_id == r.user_id) t.users && any (λ e. e.event_id == r.event_id) t.events)

unfoldable pub add_reservation : Reservation → Tables → Tables
add_reservation r t = record t { reservations = r ∷ t.reservations }

-- `ReservationRepository.update_status`
unfoldable pub set_reservation_status : ReservationStatus → ℕ → Tables → Tables
set_reservation_status new_status k t = record t {
  reservations =
      map (λ r. if r.reservation_id == k then record r { status = new_status } else r)
        t.reservations;
}

unfoldable pub write_seats : (Seat → Seat) → List ℕ → Tables → Tables
write_seats f ids t = record t { seats = update_seats f ids t.seats }

unfoldable pub can_pay : Payment → Tables → Bool
can_pay p t =
    not (any (λ x. x.payment_id == p.payment_id) t.payments)
    && (any (λ r. r.reservation_id == p.reservation_id) t.reservations
        && any (λ u. u.user_id == p.user_id) t.users)

unfoldable pub add_payment : Payment → Tables → Tables
add_payment p t = record t { payments = p ∷ t.payments }

-- `PaymentRepository.update_status`
unfoldable pub set_payment_status : PaymentStatus → ℕ → Tables → Tables
set_payment_status new_status k t = record t {
  payments =
      map (λ p. if p.payment_id == k then record p { status = new_status } else p) t.payments;
}
