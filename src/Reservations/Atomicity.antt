-- ===== src/Reservations/Atomicity.antt =====
-- What the end of a hold leaves to its caller: a reply, and tables that are old or new as a whole.
use ticket_booking.Base.{
  ℕ, ◌≡◌, refl, ap, inl, inr, ◌⊎◌, true, some, List, elem, arith, filter, sum-perm,
}
use ticket_booking.Exceptions.{Result, ok, err}
use ticket_booking.Models.{Seat, SeatStatus, Reservation, ReservationStatus, held, is_held, Tables}
use ticket_booking.Env.{Env}
use ticket_booking.Action.{Session, World, pure}
use ticket_booking.Action.Rules.{bind_result}
use ticket_booking.Repositories.Reads.{get_reservation_by_id, seats_in}
use ticket_booking.Reservations.Common.{total_price, parse_all}
use ticket_booking.Reservations.Effects.{saved}
use ticket_booking.Reservations.Ending.{ended, Ended, untouched, through}

module _ (env : Env) where
  -- The total price of some seats does not depend on the order in which the engine returns them.
  pub total_price-seats_in :
      (ids : List ℕ) (t : Tables)
      → total_price (seats_in env ids t) ≡ total_price (filter (λ s. elem s.seat_id ids) t.seats)
  unfolding seats_in
  total_price-seats_in ids t = sum-perm (λ s. s.price) (env.order-perm Seat _)

  pub is_held-held : (st : ReservationStatus) → is_held st ≡ true → st ≡ held
  is_held-held st h = ground arith

  -- A reply made of the seats, after the end of a hold.
  pub replied :
      {B : Type 0} (g : List Seat → B) (st : SeatStatus) (rst : ReservationStatus) (r : Reservation)
      (w : World env) (y : Result (List Seat) × World env) (b : B)
      → Ended env st rst r w y
      → (bind_result {env = env} (λ seats. pure (g seats)) y).0 ≡ ok b
      → (ids : List ℕ) × (parse_all env r.seat_ids ≡ some ids)
        × ((bind_result {env = env} (λ seats. pure (g seats)) y).1.session
            ≡ saved (ended st rst ids r.reservation_id w.session.working))
        × (b ≡ g (seats_in env ids w.session.working))
  replied g st rst r w (ok seats, w') b (untouched e h s) q = cc
  replied g st rst r w (err f, w') b (untouched e h s) q = cc
  replied g st rst r w (err f, w') b (through ids e s k) q = cc
  replied g st rst r w (ok seats, w') b (through ids e s k) q =
      (ids, e, s, ground (arith, ap g (k seats refl)))

  -- The session is as it was, or a reservation that was held is ended as a whole.
  abbrev pub Atomic : SeatStatus → ReservationStatus → ℕ → Tables → Session → Session → Type 0
  Atomic st rst k t s s' =
      (s' ≡ s)
      ⊎ ((r : Reservation) × (ids : List ℕ) × (get_reservation_by_id env k t ≡ some r)
          × (r.status ≡ held)
          × (parse_all env r.seat_ids ≡ some ids)
          × (s' ≡ saved (ended st rst ids r.reservation_id t)))

  pub Ended-Atomic :
      {B : Type 0} (g : List Seat → B) (st : SeatStatus) (rst : ReservationStatus) (k : ℕ)
      (r : Reservation) (w : World env) (y : Result (List Seat) × World env)
      → get_reservation_by_id env k w.session.working ≡ some r
      → r.status ≡ held
      → Ended env st rst r w y
      → Atomic st rst k w.session.working w.session
          (bind_result {env = env} (λ seats. pure (g seats)) y).1.session
  Ended-Atomic g st rst k r w (ok seats, w') found h (untouched e f s) = inl s
  Ended-Atomic g st rst k r w (err x, w') found h (untouched e f s) = inl s
  Ended-Atomic g st rst k r w (ok seats, w') found h (through ids e s q) =
      inr (r, ids, found, h, e, s)
  Ended-Atomic g st rst k r w (err x, w') found h (through ids e s q) = inr (r, ids, found, h, e, s)
