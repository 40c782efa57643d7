-- ===== src/Races.antt =====
-- Calls that overlap: the checks of one request run before it takes the lock, and another request
-- commits in between.
use ticket_booking.Base.{
  ℕ, inl, inr, true, length, Bool-cases, Option-cases, ◌≡◌, sym, ◌∙◌, ap, some, List, Text, arith,
}
use ticket_booking.Exceptions.{Result, ok, err}
use ticket_booking.Models.{available, sold, completed, cancelled, Reservation, Seat, is_held}
use ticket_booking.Env.{Env}
use ticket_booking.Action.{World, ◌>>◌, pure}
use ticket_booking.Action.Rules.{bind_result}
use ticket_booking.Reservations.Release.{count_released, release_fresh, release_block}
use ticket_booking.Repositories.Reads.{get_reservation_by_id}
use ticket_booking.Reservations.Common.{ReservationResponse, parse_all}
use ticket_booking.Reservations.Finish.{check_cancel, cancel_checked, complete_reservation}
use ticket_booking.Reservations.Effects.{saved, Finished, unread, written, finish-Finished}
use ticket_booking.Reservations.Ending.{ended, finish_tables-eq-ended}
use ticket_booking.Reservations.Cancellation.{
  CancelChecked, refused, accepted, check_cancel-Checked, cancel_checked-eq-ok,
}
use ticket_booking.Reservations.Completion.{complete_reservation-eq-ok}

module _ (env : Env) where
  passed :
      (k : ℕ) (user_id : Text) (w : World env) (r : Reservation)
      → CancelChecked env k user_id w (check_cancel env k user_id w)
      → (check_cancel env k user_id w).0 ≡ ok r
      → get_reservation_by_id env k w.session.working ≡ some r
  passed k user_id w r (refused e h) q = absurd (ground (arith, ap (λ z. z.0) h))
  passed k user_id w r (accepted r' h found own st) q = ground (arith, ap (λ z. z.0) h)

  -- Where a cancellation has passed its checks, then the reservation is completed, and then
  -- the cancellation takes the lock and returns, the seats that were sold are available again
  -- and the completed reservation is cancelled.
  pub late_cancel :
      (k : ℕ) (user_id : Text) (w w' : World env) (r reply : Reservation)
      (resp : ReservationResponse)
      → (check_cancel env k user_id w).0 ≡ ok r
      → (complete_reservation env k w).0 ≡ ok reply
      → w'.session ≡ (complete_reservation env k w).1.session
      → (cancel_checked env r w').0 ≡ ok resp
      → (ids : List ℕ) × (parse_all env r.seat_ids ≡ some ids)
        × ((complete_reservation env k w).1.session.committed
            ≡ ended sold completed ids r.reservation_id w.session.working)
        × ((cancel_checked env r w').1.session.committed
            ≡ ended available cancelled ids r.reservation_id
                (ended sold completed ids r.reservation_id w.session.working))
  late_cancel k user_id w w' r reply resp checked completes seen cancels =
      let found = passed k user_id w r (check_cancel-Checked env k user_id w) checked in
      let (r2, ids, found2, st, late, parsed, s, b) =
        complete_reservation-eq-ok env k w reply completes in
      let same : r2 ≡ r = cc in
      let (ids', parsed', s', b') = cancel_checked-eq-ok env r w' resp cancels in
      let p : parse_all env r.seat_ids ≡ some ids =
        ap (λ y. parse_all env y.seat_ids) (sym same) ∙ parsed in
      let same_ids : ids' ≡ ids = cc in
      let first =
        s ∙ ap (λ y. saved (ended sold completed ids y.reservation_id w.session.working)) same in
      (
        ids,
        p,
        ap (λ z. z.committed) first,
        ap (λ z. z.committed) s'
            ∙ ap (λ js. ended available cancelled js r.reservation_id w'.session.working) same_ids
            ∙ ap (λ z. ended available cancelled ids r.reservation_id z.working) (seen ∙ first),
      )

  finished :
      (r : Reservation) (w : World env) (x : Result (List Seat) × World env)
      → (bind_result (λ seats. count_released env (length seats) >> pure true) x).0 ≡ ok true
      → Finished env available cancelled r w x
      → (ids : List ℕ) × (parse_all env r.seat_ids ≡ some ids)
        × ((bind_result (λ seats. count_released env (length seats) >> pure true) x).1.session
            ≡ saved (ended available cancelled ids r.reservation_id w.session.working))
  finished r w (err e, w') h f = cc
  finished r w (ok seats, w') h (unread e s) = cc
  finished r w (ok seats, w') h (written ids p s q) = (
    ids,
    p,
    s
        ∙ ap saved
            (finish_tables-eq-ended env available cancelled ids r.reservation_id w.session.working),
  )

  -- A block of the release loops that says that it has committed has released the reservation.
  released :
      (event_id : Text) (r : Reservation) (w : World env)
      → (release_block env event_id r w).0 ≡ ok true
      → (ids : List ℕ) × (parse_all env r.seat_ids ≡ some ids)
        × ((release_block env event_id r w).1.session
            ≡ saved (ended available cancelled ids r.reservation_id w.session.working))
  unfolding release_block release_fresh
  released event_id r w h =
      elim (Option-cases (get_reservation_by_id env r.reservation_id w.session.working)) [
        | inl e ↦ cc (rw e at h)
        | inr (row, e) ↦ elim (Bool-cases (is_held r.status)) [
          | inr f ↦ cc (rw (e, f) at h)
          | inl f ↦
              rw (e, f)
                (finished r w _ (rw (e, f) at h)
                  (finish-Finished env event_id r available cancelled w))
        ]
      ]

  -- Where a release loop has loaded a held reservation, then the reservation is completed,
  -- and then the loop takes the lock and its block commits, the seats that were sold are
  -- available again and the completed reservation is cancelled, although it is queried again
  -- under the lock.
  pub late_release :
      (k : ℕ) (event_id : Text) (w w' : World env) (r reply : Reservation)
      → get_reservation_by_id env k w.session.working ≡ some r
      → (complete_reservation env k w).0 ≡ ok reply
      → w'.session ≡ (complete_reservation env k w).1.session
      → (release_block env event_id r w').0 ≡ ok true
      → (ids : List ℕ) × (parse_all env r.seat_ids ≡ some ids)
        × ((complete_reservation env k w).1.session.committed
            ≡ ended sold completed ids r.reservation_id w.session.working)
        × ((release_block env event_id r w').1.session.committed
            ≡ ended available cancelled ids r.reservation_id
                (ended sold completed ids r.reservation_id w.session.working))
  late_release k event_id w w' r reply loaded completes seen commits =
      let (r2, ids, found2, st, late, parsed, s, b) =
        complete_reservation-eq-ok env k w reply completes in
      let same : r2 ≡ r = cc in
      let (ids', parsed', s') = released event_id r w' commits in
      let p : parse_all env r.seat_ids ≡ some ids =
        ap (λ y. parse_all env y.seat_ids) (sym same) ∙ parsed in
      let same_ids : ids' ≡ ids = cc in
      let first =
        s ∙ ap (λ y. saved (ended sold completed ids y.reservation_id w.session.working)) same in
      (
        ids,
        p,
        ap (λ z. z.committed) first,
        ap (λ z. z.committed) s'
            ∙ ap (λ js. ended available cancelled js r.reservation_id w'.session.working) same_ids
            ∙ ap (λ z. ended available cancelled ids r.reservation_id z.working) (seen ∙ first),
      )
