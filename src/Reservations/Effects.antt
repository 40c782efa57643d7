-- ===== src/Reservations/Effects.antt =====
-- What the operations on one reservation do to the request's database session.
use ticket_booking.Base.{ℕ, ◌≡◌, refl, inl, inr, some, List, arith, Option-cases, Text}
use ticket_booking.Exceptions.{Result, ok, err, value_error}
use ticket_booking.Models.{Seat, SeatStatus, Reservation, ReservationStatus, Tables}
use ticket_booking.Env.{Env}
use ticket_booking.Action.{Session, World, ◌>>◌, pure, execute}
use ticket_booking.Action.Rules.{Outside, Outside-bind, bind-eq-ok, execute-Outside}
use ticket_booking.Repositories.Reads.{seats_in}
use ticket_booking.Reservations.Common.{
  parse_all, delete_holds, finish, announce, publish_seat_update,
}
use ticket_booking.Reservations.Consistency.{finish_tables}

-- The session after a commit.
abbrev pub saved : Tables → Session
saved t = record { working = t; committed = t }

module _ (env : Env) where
  -- What `finish` has done: nothing, if the reservation's seats cannot be read; else it has committed
  -- the end of the reservation, also where it raises after that.
  pub data Finished (st : SeatStatus) (rst : ReservationStatus) (r : Reservation) (w : World env)
      (x : Result (List Seat) × World env) : Type 0 where
    unread : x.0 ≡ err value_error → x.1.session ≡ w.session → Finished st rst r w x
    written :
        (ids : List ℕ)
        → parse_all env r.seat_ids ≡ some ids
        → x.1.session ≡ saved (finish_tables env st rst ids r.reservation_id w.session.working)
        → ((seats : List Seat) → x.0 ≡ ok seats → seats ≡ seats_in env ids w.session.working)
        → Finished st rst r w x

  pub publish-Outside :
      (event_id : Text) (seats : List Seat) (st : SeatStatus) (w : World env)
      → Outside w (publish_seat_update env event_id seats st w).1
  unfolding publish_seat_update
  publish-Outside event_id seats st w = ground arith

  pub announce-Outside :
      (event_id : Text) (seats : List Seat) (st : SeatStatus) (w : World env)
      → Outside w (announce env event_id seats st w).1
  unfolding announce
  announce-Outside event_id seats st w =
      Outside-bind (execute env (delete_holds env event_id seats))
        (λ _. publish_seat_update env event_id seats st >> pure seats) w
        (execute-Outside env (delete_holds env event_id seats) w)
        (λ _ w'.
          Outside-bind (publish_seat_update env event_id seats st) (λ _. pure seats) w'
            (publish-Outside event_id seats st w') (λ _ _. (refl, refl)))

  announce-eq-ok :
      (event_id : Text) (seats : List Seat) (st : SeatStatus) (w : World env) (xs : List Seat)
      → (announce env event_id seats st w).0 ≡ ok xs
      → xs ≡ seats
  unfolding announce
  announce-eq-ok event_id seats st w xs h =
      let (_, _, published) =
        bind-eq-ok (execute env (delete_holds env event_id seats))
          (λ _. publish_seat_update env event_id seats st >> pure seats) w xs h in
      let (_, _, e) =
        bind-eq-ok (publish_seat_update env event_id seats st) (λ _. pure seats)
          (execute env (delete_holds env event_id seats) w).1 xs published in
      cc

  pub finish-Finished :
      (event_id : Text) (r : Reservation) (st : SeatStatus) (rst : ReservationStatus)
      (w : World env)
      → Finished st rst r w (finish env event_id r st rst w)
  unfolding finish
  finish-Finished event_id r st rst w = elim (Option-cases (parse_all env r.seat_ids)) [
    | inl e ↦ rw e (unread refl refl)
    | inr (ids, e) ↦ rw e (
        let tail = announce-Outside event_id (seats_in env ids w.session.working) st (record w {
          session = saved (finish_tables env st rst ids r.reservation_id w.session.working);
        }) in
        written ids e tail.0 (announce-eq-ok _ _ _ _))
  ]
