-- ===== src/Reservations/Completion.antt =====
-- What a completion returns and stores, on every branch.
use ticket_booking.Base.{
  ℕ, ◌≤◌, ◌≡◌, refl, sym, ◌∙◌, subst, ap, inl, inr, false, some, List, ltb, arith, Bool-cases,
  Option-cases,
}
use ticket_booking.Exceptions.{Error, Result, ok, err, reservation_not_found, reservation_expired}
use ticket_booking.Models.{sold, Reservation, held, completed, is_held, Tables}
use ticket_booking.Env.{Env}
use ticket_booking.Action.{Session, World}
use ticket_booking.Action.Rules.{bind_result}
use ticket_booking.Repositories.Reads.{get_reservation_by_id}
use ticket_booking.Reservations.Common.{parse_all}
use ticket_booking.Reservations.Finish.{check_complete, complete_checked, complete_reservation}
use ticket_booking.Reservations.Effects.{saved}
use ticket_booking.Reservations.Ending.{ended, finish-Ended}
use ticket_booking.Reservations.Atomicity.{is_held-held, replied, Atomic, Ended-Atomic}

module _ (env : Env) where
  -- The reservation was found, is held and has not expired at the instant of the check; otherwise the
  -- call raises at once. The check moves nothing but the clock.
  data CompleteChecked (k : ℕ) (w : World env) (x : Result Reservation × World env) : Type 0 where
    refused : (e : Error) → x.0 ≡ err e → x.1.session ≡ w.session → CompleteChecked k w x
    accepted :
        (r : Reservation)
        → x.0 ≡ ok r
        → x.1.session ≡ w.session
        → get_reservation_by_id env k w.session.working ≡ some r
        → r.status ≡ held
        → ltb r.expires_at (env.utcnow w.outside).0 ≡ false
        → CompleteChecked k w x

  check_complete-Checked : (k : ℕ) (w : World env) → CompleteChecked k w (check_complete env k w)
  unfolding check_complete
  check_complete-Checked k w = elim (Option-cases (get_reservation_by_id env k w.session.working)) [
    | inl e ↦ rw e (refused reservation_not_found refl refl)
    | inr (r, e) ↦ rw e (elim (Bool-cases (is_held r.status)) [
      | inr f ↦ rw f (refused reservation_not_found refl refl)
      | inl f ↦ rw f (elim (Bool-cases (ltb r.expires_at (env.utcnow w.outside).0)) [
        | inl g ↦ rw g (refused reservation_expired refl refl)
        | inr g ↦ rw g (accepted r refl refl e (is_held-held env r.status f) g)
      ])
    ])
  ]

  -- A held reservation that had not expired was found; its seats are committed as sold with no
  -- holder and it as completed, nothing else is changed, and it is the reply.
  abbrev pub Completes : ℕ → ℕ → Tables → Reservation → Session → Type 0
  Completes k now t reply s =
      (r : Reservation) × (ids : List ℕ) × (get_reservation_by_id env k t ≡ some r)
      × (r.status ≡ held)
      × (now ≤ r.expires_at)
      × (parse_all env r.seat_ids ≡ some ids)
      × (s ≡ saved (ended sold completed ids r.reservation_id t))
      × (reply ≡ record r { status = completed })

  after_check_complete :
      (k : ℕ) (w : World env) (reply : Reservation) (x : Result Reservation × World env)
      → CompleteChecked k w x
      → (bind_result (complete_checked env) x).0 ≡ ok reply
      → Completes k
          (env.utcnow w.outside).0
          w.session.working
          reply
          (bind_result (complete_checked env) x).1.session
  unfolding complete_checked
  after_check_complete k w reply (ok r', w') (refused e h s) q = cc
  after_check_complete k w reply (err f, w') (refused e h s) q = cc
  after_check_complete k w reply (err f, w') (accepted r h s found st late) q = cc
  after_check_complete k w reply (ok r', w') (accepted r h s found st late) q =
      let (ids, e, stored, b) =
        replied env (λ _. record r' { status = completed }) sold completed r' w' _ reply
          (finish-Ended env (env.uuid_str r'.event_id) r' sold completed w') q in
      let same : r ≡ r' = cc in
      (
        r',
        ids,
        found ∙ ap some same,
        ap (λ y. y.status) (sym same) ∙ st,
        ground arith,
        e,
        stored ∙ ap (λ z. saved (ended sold completed ids r'.reservation_id z.working)) s,
        b,
      )

  -- A completion that returns has found the reservation in status held and not expired, and
  -- has committed it as completed and its seats as sold with no holder, and nothing else.
  pub complete_reservation-eq-ok :
      (k : ℕ) (w : World env) (reply : Reservation)
      → (complete_reservation env k w).0 ≡ ok reply
      → Completes k
          (env.utcnow w.outside).0
          w.session.working
          reply
          (complete_reservation env k w).1.session
  unfolding complete_reservation
  complete_reservation-eq-ok k w reply =
      after_check_complete k w reply (check_complete env k w) (check_complete-Checked k w)

  after_check-Atomic :
      (k : ℕ) (w : World env) (x : Result Reservation × World env)
      → CompleteChecked k w x
      → Atomic env sold completed k w.session.working w.session
          (bind_result (complete_checked env) x).1.session
  unfolding complete_checked
  after_check-Atomic k w (ok r', w') (refused e h s) = inl (absurd (ground arith))
  after_check-Atomic k w (err f, w') (refused e h s) = inl s
  after_check-Atomic k w (err f, w') (accepted r h s found st late) = inl s
  after_check-Atomic k w (ok r', w') (accepted r h s found st late) =
      subst
        (λ z.
          Atomic env sold completed k z.working z
            (bind_result (complete_checked env) (ok r', w')).1.session)
        s
        (Ended-Atomic env (λ _. record r' { status = completed }) sold completed k r' w' _
          (ap (get_reservation_by_id env k) (ap (λ z. z.working) s) ∙ found ∙ ap some same)
          (ap (λ y. y.status) (sym same) ∙ st)
          (finish-Ended env (env.uuid_str r'.event_id) r' sold completed w'))
    where
      same : r ≡ r'
      same = cc

  -- However a completion ends, it has left the database as it was or has completed a held
  -- reservation and sold all of its seats.
  pub complete_reservation-Atomic :
      (k : ℕ) (w : World env)
      → Atomic env sold completed k w.session.working w.session
          (complete_reservation env k w).1.session
  unfolding complete_reservation
  complete_reservation-Atomic k w =
      after_check-Atomic k w (check_complete env k w) (check_complete-Checked k w)
