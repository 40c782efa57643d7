-- ===== src/Reservations/Cancellation.antt =====
-- What a cancellation returns and stores, on every branch.
use ticket_booking.Base.{
  ℕ, ◌≡◌, refl, ◌∙◌, ap, inl, inr, some, List, elem, Text, filter, Bool-cases, Option-cases,
  text_eq, text_eq_iff,
}
use ticket_booking.Exceptions.{Error, Result, ok, err, reservation_not_found, seat_not_available}
use ticket_booking.Models.{available, Reservation, held, cancelled, is_held, Tables}
use ticket_booking.Env.{Env}
use ticket_booking.Action.{Session, World}
use ticket_booking.Action.Rules.{bind_result}
use ticket_booking.Repositories.Reads.{get_reservation_by_id, seats_in}
use ticket_booking.Reservations.Common.{ReservationResponse, to_response, total_price, parse_all}
use ticket_booking.Reservations.Finish.{check_cancel, cancel_checked, cancel_reservation}
use ticket_booking.Reservations.Effects.{saved}
use ticket_booking.Reservations.Ending.{ended, finish-Ended}
use ticket_booking.Reservations.Atomicity.{
  total_price-seats_in, is_held-held, replied, Atomic, Ended-Atomic,
}

module _ (env : Env) where
  -- The reservation was found, is the user's and is held; otherwise the call raises at once.
  pub data CancelChecked (k : ℕ) (user_id : Text) (w : World env)
      (x : Result Reservation × World env) : Type 0 where
    refused : (e : Error) → x ≡ (err e, w) → CancelChecked k user_id w x
    accepted :
        (r : Reservation)
        → x ≡ (ok r, w)
        → get_reservation_by_id env k w.session.working ≡ some r
        → env.uuid_str r.user_id ≡ user_id
        → r.status ≡ held
        → CancelChecked k user_id w x

  pub check_cancel-Checked :
      (k : ℕ) (user_id : Text) (w : World env)
      → CancelChecked k user_id w (check_cancel env k user_id w)
  unfolding check_cancel
  check_cancel-Checked k user_id w =
      elim (Option-cases (get_reservation_by_id env k w.session.working)) [
        | inl e ↦ rw e (refused reservation_not_found refl)
        | inr (r, e) ↦ rw e (elim (Bool-cases (text_eq (env.uuid_str r.user_id) user_id)) [
          | inr f ↦ rw f (refused reservation_not_found refl)
          | inl f ↦ rw f (elim (Bool-cases (is_held r.status)) [
            | inr g ↦ rw g (refused seat_not_available refl)
            | inl g ↦ rw g (accepted r refl e ((text_eq_iff _ _).0 f) (is_held-held env r.status g))
          ])
        ])
      ]

  pub cancel_checked-eq-ok :
      (r : Reservation) (w : World env) (resp : ReservationResponse)
      → (cancel_checked env r w).0 ≡ ok resp
      → (ids : List ℕ) × (parse_all env r.seat_ids ≡ some ids)
        × ((cancel_checked env r w).1.session
            ≡ saved (ended available cancelled ids r.reservation_id w.session.working))
        × (resp
            ≡ to_response
                (record r { status = cancelled })
                (total_price (seats_in env ids w.session.working)))
  unfolding cancel_checked
  cancel_checked-eq-ok r w resp h =
      replied env (λ seats. to_response (record r { status = cancelled }) (total_price seats))
        available cancelled r w _ resp
        (finish-Ended env (env.uuid_str r.event_id) r available cancelled w) h

  -- The user's own reservation was found in status held; its seats are committed as available with
  -- no holder and it as cancelled, nothing else is changed, and the reply has the sum of its seats'
  -- prices.
  abbrev pub Cancels : ℕ → Text → Tables → ReservationResponse → Session → Type 0
  Cancels k user_id t resp s =
      (r : Reservation) × (ids : List ℕ) × (get_reservation_by_id env k t ≡ some r)
      × (env.uuid_str r.user_id ≡ user_id)
      × (r.status ≡ held)
      × (parse_all env r.seat_ids ≡ some ids)
      × (s ≡ saved (ended available cancelled ids r.reservation_id t))
      × (resp
          ≡ to_response (record r { status = cancelled })
              (total_price (filter (λ x. elem x.seat_id ids) t.seats)))

  after_check_cancel :
      (k : ℕ) (user_id : Text) (w : World env) (resp : ReservationResponse)
      (x : Result Reservation × World env)
      → CancelChecked k user_id w x
      → (bind_result (cancel_checked env) x).0 ≡ ok resp
      → Cancels k user_id w.session.working resp (bind_result (cancel_checked env) x).1.session
  after_check_cancel k user_id w resp x (refused e h) q = cc (rw h at q)
  after_check_cancel k user_id w resp x (accepted r h found own st) q =
      let (ids, e, s, reply) = cancel_checked-eq-ok r w resp (rw h at q) in
      rw h (
        r,
        ids,
        found,
        own,
        st,
        e,
        s,
        reply
            ∙ ap (to_response (record r { status = cancelled }))
                (total_price-seats_in env ids w.session.working),
      )

  -- A cancellation that returns has found the user's own reservation in status held, has
  -- committed it as cancelled and its seats as available with no holder and nothing else, and
  -- returns it with the sum of the prices of its seats.
  pub cancel_reservation-eq-ok :
      (k : ℕ) (user_id : Text) (w : World env) (resp : ReservationResponse)
      → (cancel_reservation env k user_id w).0 ≡ ok resp
      → Cancels k user_id w.session.working resp (cancel_reservation env k user_id w).1.session
  unfolding cancel_reservation
  cancel_reservation-eq-ok k user_id w resp =
      after_check_cancel k user_id w resp (check_cancel env k user_id w)
        (check_cancel-Checked k user_id w)

  after_check-Atomic :
      (k : ℕ) (user_id : Text) (w : World env) (x : Result Reservation × World env)
      → CancelChecked k user_id w x
      → Atomic env available cancelled k w.session.working w.session
          (bind_result (cancel_checked env) x).1.session
  unfolding cancel_checked
  after_check-Atomic k user_id w x (refused e h) = rw h (inl refl)
  after_check-Atomic k user_id w x (accepted r h found own st) = rw h (
      Ended-Atomic env (λ seats. to_response (record r { status = cancelled }) (total_price seats))
        available cancelled k r w _ found st
        (finish-Ended env (env.uuid_str r.event_id) r available cancelled w))

  -- However a cancellation ends, it has left the database as it was or has cancelled a held
  -- reservation and freed all of its seats.
  pub cancel_reservation-Atomic :
      (k : ℕ) (user_id : Text) (w : World env)
      → Atomic env available cancelled k w.session.working w.session
          (cancel_reservation env k user_id w).1.session
  unfolding cancel_reservation
  cancel_reservation-Atomic k user_id w =
      after_check-Atomic k user_id w (check_cancel env k user_id w)
        (check_cancel-Checked k user_id w)
