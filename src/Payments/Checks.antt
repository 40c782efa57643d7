-- ===== src/Payments/Checks.antt =====
-- What `process_payment` has checked before it writes, and the payment that it makes.
use ticket_booking.Base.{
  ℕ, ◌≤◌, inl, inr, ◌≡◌, refl, ◌∙◌, ap, true, false, some, List, [], ◌∷◌, map, any, elem, filter,
  ltb, ◌==◌, ==_iff, if◌then◌else◌, arith, Text, text_eq, text_eq_iff, Bool-cases, Option-cases,
}
use ticket_booking.Exceptions.{
  Error, Result, ok, err, value_error, reservation_not_found, business_logic, reservation_expired,
  payment_amount_mismatch, integrity_error,
}
use ticket_booking.Models.{Reservation, held, is_held, Payment, PaymentStatus, pending, Tables}
use ticket_booking.Env.{Env}
use ticket_booking.Action.{Session, World}
use ticket_booking.Repositories.Reads.{get_reservation_by_id, seats_in}
use ticket_booking.Repositories.Writes.{can_pay, add_payment, set_payment_status}
use ticket_booking.Reservations.Common.{parse_all, total_price}
use ticket_booking.Reservations.Atomicity.{total_price-seats_in, is_held-held}
use ticket_booking.Payments.{check_payment, create_payment}

module _ (env : Env) where
  -- The reservation is the user's, is held, had not expired, and costs the amount.
  pub record IsPayable (user_id : Text) (k amount : ℕ) (t : Tables) (user now : ℕ) (r : Reservation)
      (ids : List ℕ) : Type 0 where
    pub parsed : env.uuid_parse user_id ≡ some user
    pub found : get_reservation_by_id env k t ≡ some r
    pub own : env.uuid_str r.user_id ≡ user_id
    pub is_held : r.status ≡ held
    pub on_time : now ≤ r.expires_at
    pub seats : parse_all env r.seat_ids ≡ some ids
    pub exact : amount ≡ total_price (filter (λ s. elem s.seat_id ids) t.seats)

  pub data PaymentChecked (user_id : Text) (k amount : ℕ) (w : World env) (x : Result ℕ × World env)
      : Type 0 where
    refused :
        (e : Error) → x.0 ≡ err e → x.1.session ≡ w.session → PaymentChecked user_id k amount w x
    accepted :
        (user : ℕ) (r : Reservation) (ids : List ℕ)
        → x.0 ≡ ok user
        → x.1.session ≡ w.session
        → IsPayable user_id k amount w.session.working user (env.utcnow w.outside).0 r ids
        → PaymentChecked user_id k amount w x

  pub check_payment-Checked :
      (user_id : Text) (k amount : ℕ) (w : World env)
      → PaymentChecked user_id k amount w (check_payment env user_id k amount w)
  unfolding check_payment
  check_payment-Checked user_id k amount w = elim (Option-cases (env.uuid_parse user_id)) [
    | inl a ↦ rw a (refused value_error refl refl)
    | inr (user, a) ↦ rw a (elim (Option-cases (get_reservation_by_id env k w.session.working)) [
      | inl b ↦ rw b (refused reservation_not_found refl refl)
      | inr (r, b) ↦ rw b (elim (Bool-cases (text_eq (env.uuid_str r.user_id) user_id)) [
        | inr c ↦ rw c (refused reservation_not_found refl refl)
        | inl c ↦ rw c (elim (Bool-cases (is_held r.status)) [
          | inr d ↦ rw d (refused business_logic refl refl)
          | inl d ↦ rw d (elim (Bool-cases (ltb r.expires_at (env.utcnow w.outside).0)) [
            | inl e ↦ rw e (refused reservation_expired refl refl)
            | inr e ↦ rw e (elim (Option-cases (parse_all env r.seat_ids)) [
              | inl f ↦ rw f (refused value_error refl refl)
              | inr (ids, f) ↦
                  rw f
                    (elim (Bool-cases
                      (amount == total_price (seats_in env ids w.session.working))) [
                        | inr g ↦ rw g (refused payment_amount_mismatch refl refl)
                        | inl g ↦ rw g (
                            accepted user r ids refl refl (record {
                              parsed = a;
                              found = b;
                              own = (text_eq_iff _ _).0 c;
                              is_held = is_held-held env r.status d;
                              on_time = ground arith;
                              seats = f;
                              exact =
                                  (==_iff _ _).0 g ∙ total_price-seats_in env ids w.session.working;
                            }))
                      ])
            ])
          ])
        ])
      ])
    ])
  ]

  -- The payment that is recorded before the gateway is asked.
  pub record IsPending (k user amount : ℕ) (payment_method : Text) (t : Tables) (p : Payment)
      : Type 0 where
    pub of_reservation : p.reservation_id ≡ k
    pub of_user : p.user_id ≡ user
    pub of_amount : p.amount ≡ amount
    pub by : p.payment_method ≡ payment_method
    pub is_pending : p.status ≡ pending
    pub allowed : can_pay p t ≡ true

  pub data PaymentCreated (k user amount : ℕ) (payment_method : Text) (s : Session)
      (x : Result Payment × World env) : Type 0 where
    rejected :
        (e : Error)
        → x.0 ≡ err e
        → x.1.session ≡ s
        → PaymentCreated k user amount payment_method s x
    created :
        (p : Payment)
        → x.0 ≡ ok p
        → IsPending k user amount payment_method s.working p
        → x.1.session ≡ record { working = add_payment p s.working; committed = s.committed }
        → PaymentCreated k user amount payment_method s x

  pub create_payment-Created :
      (k user amount : ℕ) (payment_method : Text) (w : World env)
      → PaymentCreated k user amount payment_method w.session
          (create_payment env k user amount payment_method w)
  unfolding create_payment
  create_payment-Created k user amount payment_method w =
      elim (Bool-cases (can_pay p w.session.working)) [
        | inr f ↦ rw f (rejected integrity_error refl refl)
        | inl f ↦ rw f (
            created p refl
              (record {
                of_reservation = refl;
                of_user = refl;
                of_amount = refl;
                by = refl;
                is_pending = refl;
                allowed = f;
              })
              refl)
      ]
    where
      p : Payment
      p = record {
        payment_id = (env.uuid4 w.outside).0;
        reservation_id = k;
        user_id = user;
        amount = amount;
        status = pending;
        payment_method = payment_method;
        created_at = (env.utcnow (env.uuid4 w.outside).1).0;
      }

  others_kept :
      (st : PaymentStatus) (k : ℕ) (ps : List Payment)
      → any (λ x. x.payment_id == k) ps ≡ false
      → map (λ p. if p.payment_id == k then record p { status = st } else p) ps ≡ ps
  others_kept st k [] h = refl
  others_kept st k (p ∷ ps) h = ground (arith, others_kept st k ps)

  -- The new status goes to the new payment alone.
  pub set_payment_status-add :
      (st : PaymentStatus) (p : Payment) (t u : Tables)
      → can_pay p t ≡ true
      → u.payments ≡ p ∷ t.payments
      → set_payment_status st p.payment_id u
        ≡ record u { payments = record p { status = st } ∷ t.payments }
  unfolding set_payment_status can_pay
  set_payment_status-add st p t u h e =
      ap (λ ps. record u { payments = ps })
        (ap (map (λ q. if q.payment_id == p.payment_id then record q { status = st } else q)) e
          ∙ ground (arith, others_kept st p.payment_id t.payments))
