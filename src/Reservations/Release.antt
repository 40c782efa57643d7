-- ===== src/Reservations/Release.antt =====
-- The loops of ReservationService that give back the seats of many reservations.
use ticket_booking.Base.{
  ℕ, ◌+◌, Bool, true, false, ◌||◌, Option, none, some, List, [], ◌∷◌, Text, length, if◌then◌else◌,
}
use ticket_booking.Exceptions.{Result, ok, err, value_error, object_deleted}
use ticket_booking.Models.{Reservation, available, cancelled, is_held}
use ticket_booking.Env.{Env}
use ticket_booking.Action.{Action, World, ◌>>=◌, ◌>>◌, pure, or_raise, query, external, rollback}
use ticket_booking.Lock.{reservation_lock}
use ticket_booking.Repositories.Reads.{get_reservation_by_id, get_expired_held, get_held_by_user}
use ticket_booking.Reservations.Common.{finish}

module _ (env : Env) where
  -- `released_count += …`
  abbrev pub count_released : ℕ → Action env (Unit {0})
  count_released n w = (
    ok tt,
    record w {
      counters = record { duplicates = w.counters.duplicates; released = w.counters.released + n };
    },
  )

  -- The block under the lock, with the object that get_by_id answers; `continue` leaves it. It
  -- returns whether it has committed.
  unfoldable pub release_fresh : Text → Option Reservation → Action env Bool
  release_fresh event_id none = pure false
  release_fresh event_id (some fresh) =
      if is_held fresh.status
      then (finish env event_id fresh available cancelled >>= λ seats.
          count_released (length seats) >> pure true)
      else pure false

  -- An exception is logged, and what was not committed is rolled back. A commit and a rollback
  -- expire the objects of the session.
  unfoldable pub recover : Result Bool × World env → Result Bool × World env
  recover (ok expires, w) = (ok expires, w)
  recover (err _, w) = (rollback >> pure true) w

  -- A query answers a row whose object the session has with that object, as it was loaded.
  abbrev pub identity : Reservation → Option Reservation → Option Reservation
  identity loaded none = none
  identity loaded (some row) = some loaded

  -- The block under the lock. Its query finds the row, but the status that it checks is that of the
  -- object, which was loaded before.
  unfoldable pub release_block : Text → Reservation → Action env Bool
  release_block event_id reservation =
      query (λ t. identity reservation (get_reservation_by_id env reservation.reservation_id t))
      >>= release_fresh event_id

  -- One round, with the reservation as it was loaded before the lock.
  unfoldable pub release_one : Reservation → Action env Bool
  unfolding recover
  release_one reservation w =
      let event_id = env.uuid_str reservation.event_id in
      recover (reservation_lock env event_id (release_block event_id reservation) w)

  -- `reservation.event_id`, the first use of an object in a round: one that has expired is loaded again.
  unfoldable pub load : Bool → Reservation → Action env Reservation
  load false reservation = pure reservation
  load true reservation = do
    found ← query (get_reservation_by_id env reservation.reservation_id)
    or_raise found object_deleted

  -- The rounds that are left, and whether their objects have expired.
  unfoldable pub release_all : Bool → List Reservation → Action env (Unit {0})
  release_all expired [] = pure tt
  release_all expired (r ∷ rs) = do
    reservation ← load expired r
    expires ← release_one reservation
    release_all (expired || expires) rs

  -- The loop with its count, which begins at 0.
  unfoldable pub release_counted : List Reservation → Action env ℕ
  release_counted rs w =
      (release_all false rs >>= λ _ w'. (ok w'.counters.released, w'))
        (record w { counters = record { duplicates = w.counters.duplicates; released = 0 } })

  -- `ReservationService.release_expired_holds`
  unfoldable pub release_expired_holds : Action env ℕ
  release_expired_holds = do
    now ← external env env.utcnow
    expired ← query (get_expired_held env now)
    release_counted expired

  -- `ReservationService.release_user_holds`
  unfoldable pub release_user_holds : Text → Action env ℕ
  release_user_holds user_id = do
    user_uuid ← or_raise (env.uuid_parse user_id) value_error
    reservations ← query (get_held_by_user env user_uuid)
    release_counted reservations
