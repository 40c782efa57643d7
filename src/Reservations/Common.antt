-- ===== src/Reservations/Common.antt =====
-- What the operations of ReservationService share: the reply, the seat update that is published,
-- and the end of a hold, which the source repeats in four places.
use ticket_booking.Base.{ℕ, ◌*◌, ◌++◌, Option, none, some, List, [], ◌∷◌, map, Text, codes, sum}
use ticket_booking.Exceptions.{value_error}
use ticket_booking.Models.{Seat, SeatStatus, Reservation, ReservationStatus}
use ticket_booking.Env.{Env, Command}
use ticket_booking.Action.{
  Action, ◌>>=◌, ◌>>◌, pure, or_raise, query, external, change, commit, execute, attempt,
}
use ticket_booking.Keys.{seat_hold_key, cache_seats_key, cache_available_seats_key}
use ticket_booking.Repositories.Reads.{seats_in}
use ticket_booking.Repositories.SeatUpdates.{keys}
use ticket_booking.Repositories.Writes.{clear_seat, set_reservation_status, write_seats}

-- `timedelta(minutes=RESERVATION_HOLD_MINUTES)` in microseconds.
abbrev pub reservation_hold : ℕ
reservation_hold = 5 * 60_000_000

pub record ReservationResponse : Type 0 where
  pub reservation_id : ℕ
  pub user_id : ℕ
  pub event_id : ℕ
  pub seat_ids : List Text
  pub status : ReservationStatus
  pub created_at : ℕ
  pub expires_at : ℕ
  pub total_price : ℕ

-- `_to_response`
unfoldable pub to_response : Reservation → ℕ → ReservationResponse
to_response r total_price = record {
  reservation_id = r.reservation_id;
  user_id = r.user_id;
  event_id = r.event_id;
  seat_ids = r.seat_ids;
  status = r.status;
  created_at = r.created_at;
  expires_at = r.expires_at;
  total_price = total_price;
}

-- `sum(s.price for s in seats)`
abbrev pub total_price : List Seat → ℕ
total_price seats = sum (map (λ s. s.price) seats)

abbrev pub cons_parsed : Option ℕ → Option (List ℕ) → Option (List ℕ)
cons_parsed none r = none
cons_parsed (some k) none = none
cons_parsed (some k) (some ks) = some (k ∷ ks)

module _ (env : Env) where
  -- `[uuid.UUID(sid) for sid in seat_ids]`
  unfoldable pub parse_all : List Text → Option (List ℕ)
  parse_all [] = some []
  parse_all (s ∷ ss) = cons_parsed (env.uuid_parse s) (parse_all ss)

  -- `_publish_seat_update`
  unfoldable pub publish_seat_update : Text → List Seat → SeatStatus → Action env (Unit {0})
  publish_seat_update event_id seats new_status = do
    timestamp ← external env env.utcnow
    attempt env (
        execute env (
          Command.delete (cache_seats_key event_id)
          ∷ Command.delete (cache_available_seats_key event_id)
          ∷ Command.publish (codes "seat_updates:" ++ event_id) (record {
            event_id = event_id;
            seats = map (λ s. (env.uuid_str s.seat_id, new_status)) seats;
            timestamp = timestamp;
          })
          ∷ []))

  -- The commands that delete the hold keys of the seats.
  abbrev pub delete_holds : Text → List Seat → List Command
  delete_holds event_id seats =
      map (λ s. Command.delete (seat_hold_key event_id (env.uuid_str s.seat_id))) seats

  -- What follows the commit: the hold keys are deleted and the seat update is published.
  unfoldable pub announce : Text → List Seat → SeatStatus → Action env (List Seat)
  announce event_id seats seat_status = do
    execute env (delete_holds event_id seats)
    publish_seat_update event_id seats seat_status
    pure seats

  -- Under the lock: the seats of the reservation get a status and lose their holder, and the
  -- reservation gets its last status.
  unfoldable pub finish :
      Text → Reservation → SeatStatus → ReservationStatus → Action env (List Seat)
  finish event_id reservation seat_status reservation_status = do
    ids ← or_raise (parse_all reservation.seat_ids) value_error
    seats ← query (seats_in env ids)
    change (write_seats (clear_seat seat_status) (keys seats))
    change (set_reservation_status reservation_status reservation.reservation_id)
    commit
    announce event_id seats seat_status
