-- ===== src/History/Serving.antt =====
-- Every history of requests is a sequence of moves.
use ticket_booking.Base.{
  ℕ, ◌≡◌, refl, sym, ◌∙◌, ap, subst, inl, inr, ◌≢◌, Bool, true, false, not, List, [], ◌∷◌, any, In,
  ◌&&◌, ltb, Text, Bool-cases, arith,
}
use ticket_booking.Exceptions.{Error, http_exception, Result}
use ticket_booking.Models.{
  available, sold, Reservation, completed, cancelled, is_held, Payment, PaymentStatus, failed,
  pending, Tables,
}
use ticket_booking.Env.{Env}
use ticket_booking.Action.{World, Session, Action, ◌>>◌, pure, raise_if}
use ticket_booking.Repositories.Writes.{add_payment}
use ticket_booking.Reservations.Hold.{hold_seats}
use ticket_booking.Reservations.HoldCall.{hold_seats-Outcome}
use ticket_booking.Reservations.Finish.{cancel_reservation}
use ticket_booking.Reservations.Cancellation.{cancel_reservation-Atomic}
use ticket_booking.Reservations.Effects.{saved}
use ticket_booking.Reservations.Ending.{get_reservation_by_id-In}
use ticket_booking.Reservations.Release.{release_user_holds}
use ticket_booking.Reservations.Releasing.{
  Releases, release_expired_holds-keeps, release_user_holds-keeps,
}
use ticket_booking.Payments.{process_payment}
use ticket_booking.Payments.Checks.{IsPending}
use ticket_booking.Payments.Settlement.{Settled, declined, left_pending, paid}
use ticket_booking.Payments.Charging.{turned_down, charged, process_payment-Outcome}
use ticket_booking.Requests.{
  Request, hold, cancel, pay, release_user, cleanup, validate_seat_count, is_internal, get_db,
  run_cleanup, handle, serve, serve_all,
}
use ticket_booking.Safety.{unit-session}
use ticket_booking.History.Moves.{
  ends, sells, frees, notes, pays, Reach, start, Reach-trans, Reach-move, Reach-same,
}
use ticket_booking.History.Calls.{found-IsOpen, Atomic-Follows, HoldOutcome-Reach}

module _ (env : Env) where
  -- From a session with nothing uncommitted, the committed tables make some moves.
  abbrev Moves : {A : Type 0} → Action env A → Type 0
  Moves m =
      (w : World env)
      → w.session.working ≡ w.session.committed
      → Reach env w.session.committed (m w).1.session.committed

  unit-Moves : {A : Type 0} (m : Action env A) → Moves m → Moves (m >> pure tt)
  unit-Moves m h w v =
      subst (λ s. Reach env w.session.committed s.committed) (sym (unit-session env (m w))) (h w v)

  guarded-Moves :
      {A : Type 0} (b : Bool) (e : Error) (m : Action env A) → Moves m → Moves (raise_if b e >> m)
  guarded-Moves true e m h w v = start
  guarded-Moves false e m h w v = h w v

  pending-open : (st : PaymentStatus) → st ≡ pending → st ≢ completed
  pending-open st e h = ground arith

  Settled-Reach :
      (k user amount : ℕ) (payment_method : Text) (p : Payment) (t : Tables)
      (x : Result Payment × World env)
      → IsPending env k user amount payment_method t p
      → Settled env k p t x
      → Reach env t x.1.session.committed
  unfolding add_payment
  Settled-Reach k user amount payment_method p t x b (declined e s) =
      Reach-move env
        (notes (record p { status = failed }) (λ h. ground arith) (ap (λ z. z.committed) s))
  Settled-Reach k user amount payment_method p t x b (left_pending f e a) =
      Reach-trans env (Reach-move env (notes p (pending-open p.status b.is_pending) refl))
        (Atomic-Follows env sold completed k (saved (add_payment p t)) _ sells refl a).0
  Settled-Reach k user amount payment_method p t x b (paid r ids e found h parsed s) =
      Reach-move env (
        pays (record p { status = completed }) ids r (found-IsOpen env k t r ids found h parsed)
          (b.of_reservation ∙ sym (get_reservation_by_id-In env k t r found).1) refl
          (ap (λ z. z.committed) s))

  process_payment-Moves :
      (user_id : Text) (k : ℕ) (payment_method : Text) (amount : ℕ)
      → Moves (process_payment env user_id k payment_method amount)
  process_payment-Moves user_id k payment_method amount w clean =
      elim (process_payment-Outcome env user_id k payment_method amount w) [
        | turned_down e h s ↦ Reach-same env (ap (λ z. z.committed) s)
        | charged user r ids p a b st ↦
            subst
              (λ z.
                Reach env z
                  (process_payment env user_id k payment_method amount w).1.session.committed)
              clean (Settled-Reach k user amount payment_method p w.session.working _ b st)
      ]

  Releases-Follows :
      (r : Reservation) (s s' : Session)
      → s.working ≡ s.committed
      → In r s.working.reservations
      → Releases env r s s'
      → Reach env s.committed s'.committed × (s'.working ≡ s'.committed)
  Releases-Follows r s s' c m (ids, h, p, q) = (
    subst (λ z. Reach env z s'.committed) c
        (Reach-move env (
          ends available cancelled ids r frees (record { stored = m; is_held = h; seats = p })
            (ap (λ z. z.committed) q))),
    ap (λ z. z.working) q ∙ sym (ap (λ z. z.committed) q),
  )

  -- What the loops keep: moves of the committed tables, and nothing uncommitted.
  abbrev Goes : Session → Session → Type 0
  Goes s s' =
      (s.working ≡ s.committed) → Reach env s.committed s'.committed × (s'.working ≡ s'.committed)

  Goes-join : (s s' s'' : Session) → Goes s s' → Goes s' s'' → Goes s s''
  Goes-join s s' s'' p q c =
      let (moved, c') = p c in let (after, c'') = q c' in (Reach-trans env moved after, c'')

  release_user_holds-Moves : (user_id : Text) → Moves (release_user_holds env user_id)
  release_user_holds-Moves user_id w clean =
      (release_user_holds-keeps env Goes (λ s c. (start, c)) Goes-join (λ s s' p c. (p c).1)
        (λ r s s' _ m q c. Releases-Follows r s s' c m q) user_id w clean clean).0

  run_cleanup-Moves : Moves (run_cleanup env)
  unfolding run_cleanup
  run_cleanup-Moves w clean =
      elim (Bool-cases (
        any (λ r. is_held r.status && ltb r.expires_at (env.utcnow w.outside).0)
          w.session.working.reservations)) [
            | inr e ↦ rw e start
            | inl e ↦
                rw e
                  (release_expired_holds-keeps env Goes (λ s c. (start, c)) Goes-join
                    (λ s s' p c. (p c).1) (λ r s s' _ m q c. Releases-Follows r s s' c m q)
                    (record w { outside = (env.utcnow w.outside).1 }) clean clean).0
          ]

  handle-Moves : (request : Request) → Moves (handle env request)
  unfolding handle
  handle-Moves (hold user_id event_id ids) =
      guarded-Moves (not (validate_seat_count ids)) (http_exception 422) _ (
        unit-Moves (hold_seats env user_id event_id ids) λ w clean.
          HoldOutcome-Reach env user_id event_id ids w _ clean
            (hold_seats-Outcome env user_id event_id ids w))
  handle-Moves (cancel k user_id) = unit-Moves (cancel_reservation env k user_id) λ w clean.
      (Atomic-Follows env available cancelled k w.session _ frees clean
        (cancel_reservation-Atomic env k user_id w)).0
  handle-Moves (pay user_id k payment_method amount) =
      unit-Moves (process_payment env user_id k payment_method amount)
        (process_payment-Moves user_id k payment_method amount)
  handle-Moves (release_user x_internal_secret user_id) =
      guarded-Moves (not (is_internal env x_internal_secret)) (http_exception 403) _
        (unit-Moves (release_user_holds env user_id) (release_user_holds-Moves user_id))
  handle-Moves cleanup = run_cleanup-Moves

  -- Whatever Redis, the lock, the clock and the payment gateway answer, what a history of
  -- requests, each run as one step, leaves committed is reached from what was committed
  -- before by moves of the abstract booking machine alone: free seats of one event are held
  -- under a new reservation of an existing user; a held reservation is completed with all of
  -- its seats sold or cancelled with all of them freed; a payment that is not completed is
  -- noted; or a held reservation is completed together with its completed payment.
  pub serve_all-Reach :
      (requests : List Request) (w : World env)
      → Reach env w.session.committed (serve_all env requests w).session.committed
  unfolding serve_all serve get_db
  serve_all-Reach [] w = start
  serve_all-Reach (r ∷ rs) w =
      Reach-trans env
        (handle-Moves r
          (record w {
            session = record { working = w.session.committed; committed = w.session.committed };
          })
          refl)
        (serve_all-Reach rs (serve env r w))
