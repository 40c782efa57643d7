-- ===== src/Payments/Charging.antt =====
-- What `process_payment` returns and stores, on every branch.
use ticket_booking.Base.{ℕ, ◌≡◌, refl, ◌∙◌, ap, subst, List, Text, arith}
use ticket_booking.Exceptions.{Error, Result, ok, err}
use ticket_booking.Models.{Reservation, Payment}
use ticket_booking.Env.{Env}
use ticket_booking.Action.{Action, World, ◌>>=◌, ◌>>◌, external, commit}
use ticket_booking.Action.Rules.{bind_result}
use ticket_booking.Repositories.Writes.{add_payment}
use ticket_booking.Reservations.Effects.{saved}
use ticket_booking.Payments.{create_payment, settle_payment, process_payment}
use ticket_booking.Payments.Checks.{
  IsPayable, PaymentChecked, refused, accepted, check_payment-Checked, IsPending, PaymentCreated,
  rejected, created, create_payment-Created,
}
use ticket_booking.Payments.Settlement.{Settled, settle_payment-Settled}

module _ (env : Env) where
  -- The tables after a call of `process_payment`, with what it returned. A payment is recorded only
  -- for the user's own reservation that is held, had not expired and costs the amount.
  pub data PaymentOutcome (user_id : Text) (k : ℕ) (payment_method : Text) (amount : ℕ)
      (w : World env) (x : Result Payment × World env) : Type 0 where
    turned_down :
        (e : Error)
        → x.0 ≡ err e
        → x.1.session ≡ w.session
        → PaymentOutcome user_id k payment_method amount w x
    charged :
        (user : ℕ) (r : Reservation) (ids : List ℕ) (p : Payment)
        → IsPayable env user_id k amount w.session.working user (env.utcnow w.outside).0 r ids
        → IsPending env k user amount payment_method w.session.working p
        → Settled env k p w.session.working x
        → PaymentOutcome user_id k payment_method amount w x

  -- The gateway is asked after the payment is committed as pending.
  charge : ℕ → Payment → Action env Payment
  charge k payment = do
    commit
    pg_success ← external env env.lucky
    settle_payment env payment k pg_success

  record_and_charge : ℕ → Text → ℕ → ℕ → Action env Payment
  record_and_charge k payment_method amount user =
      create_payment env k user amount payment_method >>= charge k

  after_creation :
      (user_id : Text) (k : ℕ) (payment_method : Text) (amount user : ℕ) (r : Reservation)
      (ids : List ℕ) (w0 : World env) (x : Result Payment × World env)
      → IsPayable env user_id k amount w0.session.working user (env.utcnow w0.outside).0 r ids
      → PaymentCreated env k user amount payment_method w0.session x
      → PaymentOutcome user_id k payment_method amount w0 (bind_result (charge k) x)
  unfolding charge
  after_creation user_id k payment_method amount user r ids w0 (ok p', w) a (rejected e h t) =
      absurd (ground arith)
  after_creation user_id k payment_method amount user r ids w0 (err f, w) a (rejected e h t) =
      turned_down f refl t
  after_creation user_id k payment_method amount user r ids w0 (err f, w) a (created p h b t) =
      absurd (ground arith)
  after_creation user_id k payment_method amount user r ids w0 (ok p', w) a (created p h b t) =
      let same : p ≡ p' = cc in
      let b' : IsPending env k user amount payment_method w0.session.working p' =
        subst (IsPending env k user amount payment_method w0.session.working) same b in
      charged user r ids p' a b' (
        settle_payment-Settled env k p' w0.session.working _ _ b'.allowed
          (ap (λ z. saved z.working) t ∙ ap (λ y. saved (add_payment y w0.session.working)) same))

  after_checks :
      (user_id : Text) (k : ℕ) (payment_method : Text) (amount : ℕ) (w : World env)
      (x : Result ℕ × World env)
      → PaymentChecked env user_id k amount w x
      → PaymentOutcome user_id k payment_method amount w
          (bind_result (record_and_charge k payment_method amount) x)
  unfolding record_and_charge
  after_checks user_id k payment_method amount w (ok u, w') (refused e h s) = absurd (ground arith)
  after_checks user_id k payment_method amount w (err f, w') (refused e h s) = turned_down f refl s
  after_checks user_id k payment_method amount w (err f, w') (accepted user r ids h s a) =
      absurd (ground arith)
  after_checks user_id k payment_method amount w (ok u, w') (accepted user r ids h s a) =
      after_creation user_id k payment_method amount u r ids w _
        (subst
          (λ z. IsPayable env user_id k amount w.session.working z (env.utcnow w.outside).0 r ids)
          same a)
        (subst
          (λ z.
            PaymentCreated env k u amount payment_method z
              (create_payment env k u amount payment_method w'))
          s (create_payment-Created env k u amount payment_method w'))
    where
      same : user ≡ u
      same = cc

  pub process_payment-Outcome :
      (user_id : Text) (k : ℕ) (payment_method : Text) (amount : ℕ) (w : World env)
      → PaymentOutcome user_id k payment_method amount w
          (process_payment env user_id k payment_method amount w)
  unfolding process_payment record_and_charge charge
  process_payment-Outcome user_id k payment_method amount w =
      after_checks user_id k payment_method amount w _
        (check_payment-Checked env user_id k amount w)
