-- ===== src/Requests.antt =====
-- The requests that write to the database, each with a session of its own: the dependency `get_db`
-- (apps/core-api/src/dependencies.py), the handlers of api/v1/reservations.py and payments.py, and
-- the cleanup of main.py.

use ticket_booking.Base.{
  ℕ, Bool, false, Option, none, some, text_eq, not, any, ◌&&◌, Text, List, [], ◌∷◌, length, ltb,
  ◌==◌, if◌then◌else◌,
}
use ticket_booking.Exceptions.{http_exception}
use ticket_booking.Models.{is_held}
use ticket_booking.Env.{Env}
use ticket_booking.Action.{
  Action, World, ◌>>=◌, ◌>>◌, pure, query, external, raise_if, rollback, attempt,
}
use ticket_booking.Reservations.Hold.{hold_seats}
use ticket_booking.Reservations.Finish.{cancel_reservation}
use ticket_booking.Reservations.Release.{release_expired_holds, release_user_holds}
use ticket_booking.Payments.{process_payment}

-- `HoldSeatsRequest.validate_seat_count`
unfoldable pub validate_seat_count : List ℕ → Bool
validate_seat_count v = not (length v == 0) && not (ltb 4 (length v))

pub data Request : Type 0 where
  hold : Text → Text → List ℕ → Request
  cancel : ℕ → Text → Request
  pay : Text → ℕ → Text → ℕ → Request
  release_user : Option Text → Text → Request
  cleanup : Request

module _ (env : Env) where
  -- A session begins with what is committed, is rolled back if the call raises, and its uncommitted
  -- writes are dropped when it is closed.
  unfoldable pub get_db : {A : Type 0} → Action env A → Action env A
  get_db m w =
      let (r, w') = m (record w {
        session = record { working = w.session.committed; committed = w.session.committed };
      }) in
      (r, (rollback w').1)

  -- `_run_cleanup`, where the clock of the check is that of the database.
  unfoldable pub run_cleanup : Action env (Unit {0})
  run_cleanup = do
    now ← external env env.utcnow
    has_expired ← query (λ t. any (λ r. is_held r.status && ltb r.expires_at now) t.reservations)
    if has_expired then attempt env (release_expired_holds env) else pure tt

  -- The check of `release_user_holds_internal`: a secret is set, and the header has it.
  unfoldable pub is_internal : Option Text → Bool
  is_internal none = false
  is_internal (some x_internal_secret) =
      not (length env.internal_secret == 0) && text_eq x_internal_secret env.internal_secret

  -- The handlers, with the identity that the access token gives.
  unfoldable pub handle : Request → Action env (Unit {0})
  handle (hold user_id event_id seat_ids) =
      raise_if (not (validate_seat_count seat_ids)) (http_exception 422)
      >> (hold_seats env user_id event_id seat_ids >> pure tt)
  handle (cancel reservation_id user_id) = cancel_reservation env reservation_id user_id >> pure tt
  handle (pay user_id reservation_id payment_method amount) =
      process_payment env user_id reservation_id payment_method amount >> pure tt
  handle (release_user x_internal_secret user_id) =
      raise_if (not (is_internal x_internal_secret)) (http_exception 403)
      >> (release_user_holds env user_id >> pure tt)
  handle cleanup = run_cleanup

  unfoldable pub serve : Request → World env → World env
  serve request w = (get_db (handle request) w).1

  -- Requests that are served one after another, by any number of workers.
  unfoldable pub serve_all : List Request → World env → World env
  serve_all [] w = w
  serve_all (r ∷ rs) w = serve_all rs (serve r w)
