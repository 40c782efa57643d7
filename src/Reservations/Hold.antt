-- ===== src/Reservations/Hold.antt =====
-- `ReservationService.hold_seats` and `ReservationRepository.create`.
use ticket_booking.Base.{ℕ, suc, ◌+◌, not, any, List, map, Text, length, ◌==◌, Option, none, some}
use ticket_booking.Exceptions.{
  ok, err, value_error, seat_not_available, duplicate_reservation, integrity_error,
}
use ticket_booking.Models.{Seat, hold, is_available, Reservation, held}
use ticket_booking.Env.{Env, Command}
use ticket_booking.Action.{
  Action, ◌>>=◌, ◌>>◌, pure, or_raise, query, external, raise_if, change, commit, execute,
}
use ticket_booking.Keys.{seat_hold_key, seat_hold_ttl}
use ticket_booking.Lock.{reservation_lock}
use ticket_booking.Repositories.Reads.{get_held_by_user_and_event, seats_of_event}
use ticket_booking.Repositories.SeatUpdates.{keys}
use ticket_booking.Repositories.Writes.{hold_seat, can_reserve, add_reservation, write_seats}
use ticket_booking.Reservations.Common.{
  reservation_hold, ReservationResponse, to_response, total_price, publish_seat_update,
}

module _ (env : Env) where
  -- `if existing: …`
  unfoldable pub refuse_duplicate : Option Reservation → Action env (Unit {0})
  refuse_duplicate none w = (ok tt, w)
  refuse_duplicate (some r) w = (
    err duplicate_reservation,
    record w {
      counters = record { duplicates = suc w.counters.duplicates; released = w.counters.released };
    },
  )

  -- `ReservationRepository.create`; the flush checks the table's constraints.
  unfoldable pub create : ℕ → ℕ → List Text → ℕ → Action env Reservation
  create user_id event_id seat_ids expires_at = do
    reservation_id ← external env env.uuid4
    created_at ← external env env.utcnow
    let reservation =
        let r : Reservation = record {
          reservation_id = reservation_id;
          user_id = user_id;
          event_id = event_id;
          seat_ids = seat_ids;
          status = held;
          created_at = created_at;
          expires_at = expires_at;
        } in
        r
    accepted ← query (can_reserve reservation)
    raise_if (not accepted) integrity_error
    change (add_reservation reservation)
    pure reservation

  abbrev pub set_holds : Text → Text → List Seat → List Command
  set_holds event_id user_id seats =
      map (λ s. Command.set (seat_hold_key event_id (env.uuid_str s.seat_id)) user_id seat_hold_ttl)
        seats

  -- What `hold_seats` does with seats that it may take. An exception before the commit leaves the
  -- writes to be rolled back.
  unfoldable pub take_seats : Text → Text → ℕ → ℕ → List Seat → Action env (Reservation × List Seat)
  take_seats user_id event_id user_uuid event_uuid seats = do
    now ← external env env.utcnow
    let hold_until = now + reservation_hold
    change (write_seats (hold_seat user_uuid hold_until) (keys seats))
    reservation ← create user_uuid event_uuid (map env.uuid_str (keys seats)) hold_until
    execute env (set_holds event_id user_id seats)
    commit
    publish_seat_update env event_id seats hold
    pure (reservation, seats)

  -- The checks of the seats, under the row locks of `with_for_update`.
  unfoldable pub hold_available :
      Text → Text → ℕ → ℕ → List ℕ → Action env (Reservation × List Seat)
  hold_available user_id event_id user_uuid event_uuid seat_ids = do
    seats ← query (seats_of_event env seat_ids event_uuid)
    raise_if (not (length seats == length seat_ids)) seat_not_available
    raise_if (any (λ s. not (is_available s.status)) seats) seat_not_available
    take_seats user_id event_id user_uuid event_uuid seats

  -- The block under the lock.
  unfoldable pub hold_locked : Text → Text → ℕ → ℕ → List ℕ → Action env (Reservation × List Seat)
  hold_locked user_id event_id user_uuid event_uuid seat_ids = do
    now ← external env env.utcnow
    existing ← query (get_held_by_user_and_event env user_uuid event_uuid now)
    refuse_duplicate existing
    hold_available user_id event_id user_uuid event_uuid seat_ids

  -- `ReservationService.hold_seats`
  unfoldable pub hold_seats : Text → Text → List ℕ → Action env ReservationResponse
  hold_seats user_id event_id seat_ids = do
    user_uuid ← or_raise (env.uuid_parse user_id) value_error
    event_uuid ← or_raise (env.uuid_parse event_id) value_error
    (reservation, seats) ←
        reservation_lock env event_id (hold_locked user_id event_id user_uuid event_uuid seat_ids)
    pure (to_response reservation (total_price seats))
