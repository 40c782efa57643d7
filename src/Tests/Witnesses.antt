-- ===== src/Tests/Witnesses.antt =====
-- The theorems on reservations and payments, applied to calls at concrete inputs.
use ticket_booking.Base.{
  if◌then◌else◌, elem, none, map, ◌==◌, ℕ, ◌≡◌, refl, true, some, List, [], ◌∷◌, arith, map,
}
use ticket_booking.Exceptions.{ok, err, reservation_expired}
use ticket_booking.Models.{Tables, Seat, available, sold, completed, cancelled, Payment, pending}
use ticket_booking.Action.{World}
use ticket_booking.Lock.{
  reservation_lock, settle, release, release_value, acquire_reservation_lock, acquire, attempts,
  back_off, release_script,
}
use ticket_booking.Repositories.Reads.{get_reservation_by_id, seats_in}
use ticket_booking.Repositories.Writes.{
  update_seat, update_seats, clear_seat, set_reservation_status, write_seats,
}
use ticket_booking.Reservations.Common.{
  to_response, parse_all, publish_seat_update, announce, finish,
}
use ticket_booking.Reservations.Hold.{hold_seats}
use ticket_booking.Reservations.Finish.{
  cancel_reservation, complete_reservation, check_cancel, cancel_checked, check_complete,
  complete_checked,
}
use ticket_booking.Payments.{settle_payment}
use ticket_booking.Tests.Local.{
  local_env, world, at_time, empty_tables, booked_tables, booking, seat,
}
use ticket_booking.Lock.Rules.{Locked, reservation_lock-Locked}
use ticket_booking.Repositories.SeatUpdates.{keys}
use ticket_booking.Action.{Action}
use ticket_booking.Reservations.Booking.{IsConsistent, lists}
use ticket_booking.Reservations.Holding.{HoldOutcome}
use ticket_booking.Reservations.HoldCall.{hold_seats-Outcome}
use ticket_booking.Reservations.Cancellation.{
  Cancels, cancel_reservation-eq-ok, cancel_reservation-Atomic,
}
use ticket_booking.Reservations.Completion.{
  Completes, complete_reservation-eq-ok, complete_reservation-Atomic,
}
use ticket_booking.Reservations.Ending.{finish_tables-eq-rows, ended}
use ticket_booking.Reservations.Atomicity.{Atomic}
use ticket_booking.Reservations.Release.{release_block, release_fresh}
use ticket_booking.Payments.Settlement.{settle_payment_stuck}
use ticket_booking.Requests.{Request, hold as hold_request, pay, cleanup, serve_all}
use ticket_booking.Safety.{serve_all-IsConsistent}
use ticket_booking.Races.{late_cancel, late_release}

abbrev at_start : World local_env
at_start = world booked_tables (at_time 0)

-- Seven minutes later, when the hold has expired.
abbrev at_end : World local_env
at_end = world booked_tables (at_time 420_000_000)

pub empty-IsConsistent : IsConsistent local_env empty_tables
unfolding lists
empty-IsConsistent = record { claimed = (refl, (refl, (refl, tt))); unique = λ k. ground arith }

pub booked-IsConsistent : IsConsistent local_env booked_tables
unfolding lists parse_all
booked-IsConsistent = record { claimed = (refl, (refl, (refl, tt))); unique = λ k. ground arith }

abbrev history : List Request
history =
    hold_request (1 ∷ []) (9 ∷ []) (21 ∷ 23 ∷ [])
    ∷ hold_request (2 ∷ []) (9 ∷ []) (23 ∷ [])
    ∷ pay (1 ∷ []) 100 [] 14_000
    ∷ cleanup
    ∷ []

serve_all-IsConsistent_example :
    IsConsistent local_env
      (serve_all local_env history (world empty_tables (at_time 0))).session.committed
serve_all-IsConsistent_example =
    serve_all-IsConsistent local_env history (world empty_tables (at_time 0)) empty-IsConsistent

hold_seats-Outcome_example :
    HoldOutcome local_env
      (2 ∷ [])
      (9 ∷ [])
      (22 ∷ [])
      at_start
      (hold_seats local_env (2 ∷ []) (9 ∷ []) (22 ∷ []) at_start)
hold_seats-Outcome_example = hold_seats-Outcome local_env (2 ∷ []) (9 ∷ []) (22 ∷ []) at_start

cancels :
    (cancel_reservation local_env 50 (1 ∷ []) at_start).0
    ≡ ok (to_response (record booking { status = cancelled }) 14_000)
unfolding cancel_reservation check_cancel cancel_checked complete_reservation check_complete
    complete_checked finish announce parse_all get_reservation_by_id seats_in reservation_lock
    settle release release_value acquire_reservation_lock acquire attempts back_off release_script
    update_seat update_seats clear_seat set_reservation_status write_seats publish_seat_update
    to_response
cancels = refl

cancel_reservation-eq-ok_example :
    Cancels local_env 50
      (1 ∷ [])
      booked_tables
      (to_response (record booking { status = cancelled }) 14_000)
      (cancel_reservation local_env 50 (1 ∷ []) at_start).1.session
cancel_reservation-eq-ok_example =
    cancel_reservation-eq-ok local_env 50 (1 ∷ []) at_start
      (to_response (record booking { status = cancelled }) 14_000) cancels

cancel_reservation-Atomic_example :
    Atomic local_env available cancelled 50 booked_tables
      (at_start.session)
      (cancel_reservation local_env 50 (1 ∷ []) at_start).1.session
cancel_reservation-Atomic_example = cancel_reservation-Atomic local_env 50 (1 ∷ []) at_start

completes :
    (complete_reservation local_env 50 at_start).0 ≡ ok (record booking { status = completed })
unfolding cancel_reservation check_cancel cancel_checked complete_reservation check_complete
    complete_checked finish announce parse_all get_reservation_by_id seats_in reservation_lock
    settle release release_value acquire_reservation_lock acquire attempts back_off release_script
    update_seat update_seats clear_seat set_reservation_status write_seats publish_seat_update
    to_response
completes = refl

complete_reservation-eq-ok_example :
    Completes local_env 50 0 booked_tables
      (record booking { status = completed })
      (complete_reservation local_env 50 at_start).1.session
complete_reservation-eq-ok_example =
    complete_reservation-eq-ok local_env 50 at_start (record booking { status = completed })
      completes

complete_reservation-Atomic_example :
    Atomic local_env sold completed 50 booked_tables
      (at_end.session)
      (complete_reservation local_env 50 at_end).1.session
complete_reservation-Atomic_example = complete_reservation-Atomic local_env 50 at_end

-- A payment of the booking that the gateway has been asked for.
abbrev asked : Payment
asked = record {
  payment_id = 70;
  reservation_id = 50;
  user_id = 1;
  amount = 14_000;
  status = pending;
  payment_method = [];
  created_at = 0;
}

abbrev late : World local_env
late = world (record booked_tables { payments = asked ∷ [] }) (at_time 420_000_000)

too_late : (complete_reservation local_env 50 late).0 ≡ err reservation_expired
unfolding cancel_reservation check_cancel cancel_checked complete_reservation check_complete
    complete_checked finish announce parse_all get_reservation_by_id seats_in reservation_lock
    settle release release_value acquire_reservation_lock acquire attempts back_off release_script
    update_seat update_seats clear_seat set_reservation_status write_seats publish_seat_update
    to_response
too_late = refl

settle_payment_stuck_example :
    ((settle_payment local_env asked 50 true late).0 ≡ err reservation_expired)
    × ((settle_payment local_env asked 50 true late).1.session.committed.payments ≡ asked ∷ [])
settle_payment_stuck_example =
    settle_payment_stuck local_env 50 asked reservation_expired late refl too_late

-- What the cancellation that has passed its checks sees after the payment.
abbrev sold_tables : Tables
sold_tables = record empty_tables {
  seats =
      record (seat 21 5000) { status = sold }
      ∷ seat 22 5000
      ∷ record (seat 23 9000) { status = sold }
      ∷ [];
  reservations = record booking { status = completed } ∷ [];
}

abbrev overtaken : World local_env
overtaken = world sold_tables (at_time 5_000_000)

checks : (check_cancel local_env 50 (1 ∷ []) at_start).0 ≡ ok booking
unfolding cancel_reservation check_cancel cancel_checked complete_reservation check_complete
    complete_checked finish announce parse_all get_reservation_by_id seats_in reservation_lock
    settle release release_value acquire_reservation_lock acquire attempts back_off release_script
    update_seat update_seats clear_seat set_reservation_status write_seats publish_seat_update
    to_response
checks = refl

overtaken_cancels :
    (cancel_checked local_env booking overtaken).0
    ≡ ok (to_response (record booking { status = cancelled }) 14_000)
unfolding cancel_reservation check_cancel cancel_checked complete_reservation check_complete
    complete_checked finish announce parse_all get_reservation_by_id seats_in reservation_lock
    settle release release_value acquire_reservation_lock acquire attempts back_off release_script
    update_seat update_seats clear_seat set_reservation_status write_seats publish_seat_update
    to_response
overtaken_cancels = refl

seen : overtaken.session ≡ (complete_reservation local_env 50 at_start).1.session
unfolding cancel_reservation check_cancel cancel_checked complete_reservation check_complete
    complete_checked finish announce parse_all get_reservation_by_id seats_in reservation_lock
    settle release release_value acquire_reservation_lock acquire attempts back_off release_script
    update_seat update_seats clear_seat set_reservation_status write_seats publish_seat_update
    to_response
seen = refl

late_cancel_example :
    (ids : List ℕ) × (parse_all local_env booking.seat_ids ≡ some ids)
    × ((complete_reservation local_env 50 at_start).1.session.committed
        ≡ ended sold completed ids 50 booked_tables)
    × ((cancel_checked local_env booking overtaken).1.session.committed
        ≡ ended available cancelled ids 50 (ended sold completed ids 50 booked_tables))
late_cancel_example =
    late_cancel local_env 50 (1 ∷ []) at_start overtaken booking
      (record booking { status = completed })
      (to_response (record booking { status = cancelled }) 14_000) checks completes seen
      overtaken_cancels

abbrev block : Action local_env (List Seat)
block = finish local_env (9 ∷ []) booking available cancelled

reservation_lock-Locked_example :
    Locked local_env (9 ∷ []) block at_start (reservation_lock local_env (9 ∷ []) block at_start)
reservation_lock-Locked_example = reservation_lock-Locked local_env (9 ∷ []) block at_start

finish_tables-eq-rows_example :
    set_reservation_status cancelled 50 (
      write_seats
        (clear_seat available)
        (keys (seats_in local_env (23 ∷ 21 ∷ []) booked_tables))
        booked_tables)
    ≡ record booked_tables {
      seats =
          map
            (λ s.
              if elem s.seat_id (23 ∷ 21 ∷ [])
              then record s { status = available; held_by = none; held_until = none }
              else s)
            booked_tables.seats;
      reservations =
          map
            (λ r. if r.reservation_id == 50 then record r { status = cancelled } else r)
            booked_tables.reservations;
    }
finish_tables-eq-rows_example =
    finish_tables-eq-rows local_env available cancelled (23 ∷ 21 ∷ []) 50 booked_tables

loaded : get_reservation_by_id local_env 50 at_start.session.working ≡ some booking
unfolding get_reservation_by_id
loaded = refl

overtaken_commits : (release_block local_env (9 ∷ []) booking overtaken).0 ≡ ok true
unfolding cancel_reservation check_cancel cancel_checked complete_reservation check_complete
    complete_checked finish announce parse_all get_reservation_by_id seats_in reservation_lock
    settle release release_value acquire_reservation_lock acquire attempts back_off release_script
    update_seat update_seats clear_seat set_reservation_status write_seats publish_seat_update
    to_response release_block release_fresh
overtaken_commits = refl

late_release_example :
    (ids : List ℕ) × (parse_all local_env booking.seat_ids ≡ some ids)
    × ((complete_reservation local_env 50 at_start).1.session.committed
        ≡ ended sold completed ids 50 booked_tables)
    × ((release_block local_env (9 ∷ []) booking overtaken).1.session.committed
        ≡ ended available cancelled ids 50 (ended sold completed ids 50 booked_tables))
late_release_example =
    late_release local_env 50 (9 ∷ []) at_start overtaken booking
      (record booking { status = completed }) loaded completes seen overtaken_commits
