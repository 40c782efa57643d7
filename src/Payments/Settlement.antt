-- ===== src/Payments/Settlement.antt =====
-- What follows the reply of the payment gateway, on every branch.
use ticket_booking.Base.{
  ℕ, ◌≡◌, refl, sym, ◌∙◌, ap, subst, inl, inr, Bool, true, false, some, List, ◌∷◌, arith,
}
use ticket_booking.Exceptions.{Error, Result, ok, err, business_logic}
use ticket_booking.Models.{sold, Reservation, held, Payment, completed, failed, Tables}
use ticket_booking.Env.{Env}
use ticket_booking.Action.{Action, World, ◌>>◌, pure, change, commit}
use ticket_booking.Action.Rules.{bind_result}
use ticket_booking.Repositories.Reads.{get_reservation_by_id}
use ticket_booking.Repositories.Writes.{can_pay, add_payment, set_payment_status}
use ticket_booking.Reservations.Common.{parse_all}
use ticket_booking.Reservations.Finish.{complete_reservation}
use ticket_booking.Reservations.Effects.{saved}
use ticket_booking.Reservations.Ending.{ended}
use ticket_booking.Reservations.Atomicity.{Atomic}
use ticket_booking.Reservations.Completion.{
  Completes, complete_reservation-eq-ok, complete_reservation-Atomic,
}
use ticket_booking.Payments.{settle_payment}
use ticket_booking.Payments.Checks.{set_payment_status-add}

module _ (env : Env) where
  -- What the reply of the gateway leads to, from tables `u` in which the new payment stands as
  -- pending.
  pub data Settled (k : ℕ) (p : Payment) (t : Tables) (x : Result Payment × World env)
      : Type 0 where
    declined :
        x.0 ≡ err business_logic
        → x.1.session ≡ saved (record t { payments = record p { status = failed } ∷ t.payments })
        → Settled k p t x
    left_pending :
        (e : Error)
        → x.0 ≡ err e
        → Atomic env sold completed k (add_payment p t) (saved (add_payment p t)) x.1.session
        → Settled k p t x
    paid :
        (r : Reservation) (ids : List ℕ)
        → x.0 ≡ ok (record p { status = completed })
        → get_reservation_by_id env k t ≡ some r
        → r.status ≡ held
        → parse_all env r.seat_ids ≡ some ids
        → x.1.session
          ≡ saved (record (ended sold completed ids r.reservation_id t) {
            payments = record p { status = completed } ∷ t.payments;
          })
        → Settled k p t x

  after_complete : Payment → Reservation → Action env Payment
  after_complete p _ = do
    change (set_payment_status completed p.payment_id)
    commit
    pure (record p { status = completed })

  after_complete-Settled :
      (k now : ℕ) (p : Payment) (t : Tables) (x : Result Reservation × World env)
      → can_pay p t ≡ true
      → Atomic env sold completed k (add_payment p t) (saved (add_payment p t)) x.1.session
      → ((reply : Reservation)
          → x.0 ≡ ok reply
          → Completes env k now (add_payment p t) reply x.1.session)
      → Settled k p t (bind_result (after_complete p) x)
  unfolding after_complete add_payment get_reservation_by_id
  after_complete-Settled k now p t (err e, w) h a c = left_pending e refl a
  after_complete-Settled k now p t (ok reply, w) h a c =
      let (r, ids, found, st, late, e, s, b) = c reply refl in
      paid r ids refl found st e (
        ap (λ z. saved (set_payment_status completed p.payment_id z.working)) s
        ∙ ap saved (
            set_payment_status-add env completed p t
              (ended sold completed ids r.reservation_id (add_payment p t)) h refl))

  pub settle_payment-Settled :
      (k : ℕ) (p : Payment) (t : Tables) (pg_success : Bool) (w : World env)
      → can_pay p t ≡ true
      → w.session ≡ saved (add_payment p t)
      → Settled k p t (settle_payment env p k pg_success w)
  unfolding settle_payment after_complete add_payment
  settle_payment-Settled k p t false w h s = declined refl (
      ap (λ z. saved (set_payment_status failed p.payment_id z.working)) s
      ∙ ap saved (set_payment_status-add env failed p t (add_payment p t) h refl))
  settle_payment-Settled k p t true w h s =
      after_complete-Settled k (env.utcnow w.outside).0 p t (complete_reservation env k w) h
        (subst
          (λ z. Atomic env sold completed k z.working z (complete_reservation env k w).1.session) s
          (complete_reservation-Atomic env k w))
        (λ reply q.
          subst
            (λ z.
              Completes env k (env.utcnow w.outside).0 z.working reply
                (complete_reservation env k w).1.session)
            s (complete_reservation-eq-ok env k w reply q))

  -- Where the gateway has accepted and the completion of the reservation raises, with no
  -- uncommitted writes before it, the call raises the same exception and the stored payments
  -- are those that were stored before.
  pub settle_payment_stuck :
      (k : ℕ) (p : Payment) (e : Error) (w : World env)
      → w.session.committed ≡ w.session.working
      → (complete_reservation env k w).0 ≡ err e
      → let x = settle_payment env p k true w in
        (x.0 ≡ err e) × (x.1.session.committed.payments ≡ w.session.committed.payments)
  unfolding settle_payment after_complete
  settle_payment_stuck k p e w clean h =
      go (complete_reservation env k w) h (complete_reservation-Atomic env k w)
    where
      go :
          (x : Result Reservation × World env)
          → x.0 ≡ err e
          → Atomic env sold completed k w.session.working w.session x.1.session
          → ((bind_result (after_complete p) x).0 ≡ err e)
            × ((bind_result (after_complete p) x).1.session.committed.payments
                ≡ w.session.committed.payments)
      go (ok r, w') q a = cc
      go (err f, w') q (inl a) = (ground arith, ap (λ z. z.committed.payments) a)
      go (err f, w') q (inr (r, ids, found, st, d, a)) =
          (ground arith, ap (λ z. z.committed.payments) a ∙ ap (λ z. z.payments) (sym clean))
