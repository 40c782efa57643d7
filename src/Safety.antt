-- ===== src/Safety.antt =====
-- No history of requests books a seat twice.
use ticket_booking.Base.{
  ℕ, ◌≡◌, refl, sym, subst, inl, inr, any, Bool, true, false, not, List, [], ◌∷◌, Text, ◌&&◌, ltb,
  Bool-cases,
}
use ticket_booking.Exceptions.{Error, http_exception, Result, ok, err}
use ticket_booking.Models.{sold, completed, available, cancelled, Payment, Tables, is_held}
use ticket_booking.Env.{Env}
use ticket_booking.Action.{World, Action, ◌>>◌, pure, raise_if}
use ticket_booking.Action.Rules.{bind_result}
use ticket_booking.Reservations.Booking.{IsConsistent}
use ticket_booking.Reservations.Steadiness.{
  IsSteady, saved-IsSteady, Atomic-IsSteady, HoldOutcome-IsConsistent, ended-IsConsistent,
}
use ticket_booking.Reservations.HoldCall.{hold_seats-Outcome}
use ticket_booking.Reservations.Cancellation.{cancel_reservation-Atomic}
use ticket_booking.Reservations.Releasing.{
  release_expired_holds-IsSteady, release_user_holds-IsSteady,
}
use ticket_booking.Reservations.Hold.{hold_seats}
use ticket_booking.Reservations.Finish.{cancel_reservation}
use ticket_booking.Reservations.Release.{release_user_holds}
use ticket_booking.Payments.{process_payment}
use ticket_booking.Payments.Settlement.{Settled, declined, left_pending, paid}
use ticket_booking.Payments.Charging.{turned_down, charged, process_payment-Outcome}
use ticket_booking.Repositories.Writes.{add_payment}
use ticket_booking.Requests.{
  Request, hold, cancel, pay, release_user, cleanup, validate_seat_count, is_internal, get_db,
  run_cleanup, handle, serve, serve_all,
}

module _ (env : Env) where
  -- A request's handler keeps what is committed consistent.
  abbrev Keeps : {A : Type 0} → Action env A → Type 0
  Keeps m = (w : World env) → IsSteady env w.session → IsConsistent env (m w).1.session.committed

  pub unit-session :
      {A : Type 0} (x : Result A × World env)
      → (bind_result {env = env} (λ _. pure tt) x).1.session ≡ x.1.session
  unit-session (ok a, w) = refl
  unit-session (err e, w) = refl

  unit-Keeps : {A : Type 0} (m : Action env A) → Keeps m → Keeps (m >> pure tt)
  unit-Keeps m h w v = subst (λ s. IsConsistent env s.committed) (sym (unit-session (m w))) (h w v)

  with_payments :
      (t : Tables) (ps : List Payment)
      → IsConsistent env t
      → IsConsistent env (record t { payments = ps })
  with_payments t ps c = record { claimed = c.claimed; unique = c.unique }

  Settled-IsConsistent :
      (k : ℕ) (p : Payment) (t : Tables) (x : Result Payment × World env)
      → IsConsistent env t
      → Settled env k p t x
      → IsConsistent env x.1.session.committed
  unfolding add_payment
  Settled-IsConsistent k p t x c (declined e s) =
      subst (λ z. IsConsistent env z.committed) (sym s) (with_payments t _ c)
  Settled-IsConsistent k p t x c (left_pending f e a) =
      (Atomic-IsSteady env sold completed k _ _ refl
        (saved-IsSteady env _ (with_payments t (p ∷ t.payments) c)) a).sound
  Settled-IsConsistent k p t x c (paid r ids e found h parsed s) =
      subst (λ z. IsConsistent env z.committed) (sym s)
        (with_payments _ _ (ended-IsConsistent env sold completed ids k r t refl c found h parsed))

  process_payment-Keeps :
      (user_id : Text) (k : ℕ) (payment_method : Text) (amount : ℕ)
      → Keeps (process_payment env user_id k payment_method amount)
  process_payment-Keeps user_id k payment_method amount w v =
      elim (process_payment-Outcome env user_id k payment_method amount w) [
        | turned_down e h s ↦ subst (λ z. IsConsistent env z.committed) (sym s) v.sound
        | charged user r ids p a b st ↦
            Settled-IsConsistent k p w.session.working _
              (subst (IsConsistent env) (sym v.clean) v.sound) st
      ]

  guarded-Keeps :
      {A : Type 0} (b : Bool) (e : Error) (m : Action env A) → Keeps m → Keeps (raise_if b e >> m)
  guarded-Keeps true e m h w v = v.sound
  guarded-Keeps false e m h w v = h w v

  hold-Keeps :
      (user_id event_id : Text) (ids : List ℕ) → Keeps (handle env (hold user_id event_id ids))
  unfolding handle
  hold-Keeps user_id event_id ids =
      guarded-Keeps (not (validate_seat_count ids)) (http_exception 422) _ (
        unit-Keeps (hold_seats env user_id event_id ids) λ w v.
          HoldOutcome-IsConsistent env user_id event_id ids w _ v
            (hold_seats-Outcome env user_id event_id ids w))

  run_cleanup-Keeps : Keeps (run_cleanup env)
  unfolding run_cleanup
  run_cleanup-Keeps w v =
      elim (Bool-cases (
        any (λ r. is_held r.status && ltb r.expires_at (env.utcnow w.outside).0)
          w.session.working.reservations)) [
            | inr e ↦ rw e v.sound
            | inl e ↦
                rw e
                  (release_expired_holds-IsSteady env
                    (record w { outside = (env.utcnow w.outside).1 }) v).sound
          ]

  handle-Keeps : (request : Request) → Keeps (handle env request)
  unfolding handle
  handle-Keeps (hold user_id event_id ids) = hold-Keeps user_id event_id ids
  handle-Keeps (cancel k user_id) = unit-Keeps (cancel_reservation env k user_id) λ w v.
      (Atomic-IsSteady env available cancelled k w.session _ refl v
        (cancel_reservation-Atomic env k user_id w)).sound
  handle-Keeps (pay user_id k payment_method amount) =
      unit-Keeps (process_payment env user_id k payment_method amount)
        (process_payment-Keeps user_id k payment_method amount)
  handle-Keeps (release_user x_internal_secret user_id) =
      guarded-Keeps (not (is_internal env x_internal_secret)) (http_exception 403) _ (
        unit-Keeps (release_user_holds env user_id)
          λ w v. (release_user_holds-IsSteady env user_id w v).sound)
  handle-Keeps cleanup = run_cleanup-Keeps

  serve-IsConsistent :
      (request : Request) (w : World env)
      → IsConsistent env w.session.committed
      → IsConsistent env (serve env request w).session.committed
  unfolding serve get_db
  serve-IsConsistent request w c =
      handle-Keeps request
        (record w {
          session = record { working = w.session.committed; committed = w.session.committed };
        })
        (saved-IsSteady env w.session.committed c)

  -- From consistent tables, any history of holds, cancellations, payments, releases and
  -- cleanups, each run as one step, leaves consistent tables whatever Redis, the lock, the
  -- clock and the payment gateway answer: every seat that is not available is listed by
  -- exactly one reservation that is held or completed, every available seat by none, and no
  -- two reservations share a primary key.
  pub serve_all-IsConsistent :
      (requests : List Request) (w : World env)
      → IsConsistent env w.session.committed
      → IsConsistent env (serve_all env requests w).session.committed
  unfolding serve_all
  serve_all-IsConsistent [] w c = c
  serve_all-IsConsistent (r ∷ rs) w c =
      serve_all-IsConsistent rs (serve env r w) (serve-IsConsistent r w c)
