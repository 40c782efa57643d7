-- ===== src/Cleaning/Rounds.antt =====
-- One round of the release loops, on a quiet Redis with all locks free.
use ticket_booking.Base.{
  arith, ◌+◌, ℕ, ◌≡◌, ◌⊎◌, refl, sym, ◌∙◌, ap, inl, inr, Bool, true, false, some, List, Text, any,
  In, ◌&&◌, ◌==◌, ==_iff, length, Bool-cases, any-In, In-any, &&-eq-true,
}
use mathlib.Core.Bool.{false≢true}
use ticket_booking.Exceptions.{Result, ok, err}
use ticket_booking.Models.{Seat, available, cancelled, Reservation, held, is_held, Tables}
use ticket_booking.Env.{Env}
use ticket_booking.Action.{Action, ◌>>◌, pure, World, Session}
use ticket_booking.Action.Rules.{bind_result}
use ticket_booking.Keys.{lock_reservation_key}
use ticket_booking.Repositories.Reads.{get_reservation_by_id, first_found}
use ticket_booking.Reservations.Common.{parse_all, finish}
use ticket_booking.Reservations.Release.{count_released, release_fresh, release_block}
use ticket_booking.Reservations.Effects.{saved, Finished, unread, written, finish-Finished}
use ticket_booking.Reservations.Ending.{ended, finish_tables-eq-ended}
use ticket_booking.Reservations.Atomicity.{is_held-held}
use ticket_booking.History.Finality.{HasKeys, same_row}
use ticket_booking.Cleaning.Sizes.{size, length-seats_in, finish-counters}
use ticket_booking.Cleaning.Quiet.{QuietLaws, SameLocks, finish-up}

-- Whether a reservation with this key is held.
abbrev pub is_open : ℕ → Tables → Bool
is_open k t = any (λ x. (x.reservation_id == k) && is_held x.status) t.reservations

module _ (env : Env) (laws : QuietLaws env) where
  -- Every held reservation lists seats that can be read.
  abbrev pub Readable : Tables → Type 0
  Readable t =
      (r : Reservation)
      → In r t.reservations
      → r.status ≡ held
      → (ids : List ℕ) × (parse_all env r.seat_ids ≡ some ids)

  -- After a round no reservation with the key is held: none was, or one is cancelled.
  abbrev pub Cleared : ℕ → Session → Session → Type 0
  Cleared k s s' =
      ((s' ≡ s) × (is_open k s.working ≡ false))
      ⊎ ((ids : List ℕ) × (s' ≡ saved (ended available cancelled ids k s.working)))

  -- With unique keys, no reservation with the key of a stored one that is not held is held.
  closed :
      (r : Reservation) (t : Tables)
      → HasKeys t
      → In r t.reservations
      → is_held r.status ≡ false
      → is_open r.reservation_id t ≡ false
  closed r t u m h = elim (Bool-cases (is_open r.reservation_id t)) [
    | inr e ↦ e
    | inl e ↦
        let (x, m', both) =
          any-In (λ x. (x.reservation_id == r.reservation_id) && is_held x.status) t.reservations
            e in
        let (has_key, is_held_x) = &&-eq-true _ _ both in
        let same =
          same_row r x t.reservations m m'
            (sym ((==_iff x.reservation_id r.reservation_id).0 has_key)) (u r.reservation_id) in
        absurd (false≢true (sym h ∙ ap (λ y. is_held y.status) same ∙ is_held_x))
  ]

  counted : List Seat → Action env Bool
  counted seats = count_released env (length seats) >> pure true

  counted-ok :
      (x : Result (List Seat) × World env) (seats : List Seat)
      → x.0 ≡ ok seats
      → ((bind_result counted x).0 ≡ ok true)
        × ((bind_result counted x).1.outside ≡ x.1.outside)
        × ((bind_result counted x).1.session ≡ x.1.session)
        × ((bind_result counted x).1.counters.released ≡ x.1.counters.released + length seats)
  unfolding counted
  counted-ok (ok ss, w) seats h = (refl, refl, refl, ground arith)
  counted-ok (err e, w) seats h = cc

  finished :
      (r : Reservation) (w : World env) (x : Result (List Seat) × World env) (seats : List Seat)
      → x.0 ≡ ok seats
      → Finished env available cancelled r w x
      → (ids : List ℕ) × (x.1.session
          ≡ saved (ended available cancelled ids r.reservation_id w.session.working))
  finished r w x seats h (unread e s) = cc
  finished r w x seats h (written ids e s q) = (
    ids,
    s
        ∙ ap saved
            (finish_tables-eq-ended env available cancelled ids r.reservation_id w.session.working),
  )

  -- What a block has done: it returns whether it wrote, and the reservation is not held any more.
  abbrev pub Clears : Reservation → Session → Result Bool × World env → Type 0
  Clears r s x =
      (b : Bool) × (x.0 ≡ ok b)
      × (b ≡ false → x.1.session ≡ s)
      × Cleared r.reservation_id s x.1.session

  -- A held reservation adds its seats to the count.
  abbrev pub Counts : Reservation → World env → World env → Type 0
  Counts r w w' =
      is_held r.status ≡ true
      → w'.counters.released ≡ w.counters.released + size env w.session.working r

  finish-Clears :
      (event_id : Text) (r : Reservation) (ids : List ℕ) (w : World env)
      → parse_all env r.seat_ids ≡ some ids
      → let x = bind_result counted (finish env event_id r available cancelled w) in
        SameLocks env laws w.outside x.1.outside × Clears r w.session x × Counts r w x.1
  finish-Clears event_id r ids w e =
      let (returns, same) = finish-up env laws event_id r available cancelled ids w e in
      let (done, out, ses, more) =
        counted-ok (finish env event_id r available cancelled w) _ returns in
      let (ids', wrote) =
        finished r w _ _ returns (finish-Finished env event_id r available cancelled w) in
      (
        λ event. ap (env.get (lock_reservation_key event)) out ∙ same event,
        (true, done, λ f. absurd (false≢true (sym f)), inr (ids', ses ∙ wrote)),
        λ _. omega (
          arith,
          more,
          ap (λ c. c.released) (finish-counters env event_id r available cancelled w),
          length-seats_in env r ids w.session.working e,
        ),
      )

  pub block-up :
      (event_id : Text) (r : Reservation) (w : World env)
      → HasKeys w.session.working
      → Readable w.session.working
      → In r w.session.working.reservations
      → let x = release_block env event_id r w in
        SameLocks env laws w.outside x.1.outside × Clears r w.session x × Counts r w x.1
  unfolding release_block release_fresh counted get_reservation_by_id
  block-up event_id r w u p m =
      let (row, e) =
        first_found env (λ x. x.reservation_id == r.reservation_id) w.session.working.reservations
          (In-any _ r w.session.working.reservations m
            ((==_iff r.reservation_id r.reservation_id).1 refl)) in
      elim (Bool-cases (is_held r.status)) [
        | inr f ↦
            rw (e, f)
              (
                λ event. refl,
                (false, refl, λ _. refl, inl (refl, closed r w.session.working u m f)),
                λ k. absurd (false≢true k),
              )
        | inl f ↦
            let (ids, q) = p r m (is_held-held env r.status f) in
            let (same, done, more) = finish-Clears event_id r ids w q in
            rw (e, f) (same, done, λ _. more f)
      ]
