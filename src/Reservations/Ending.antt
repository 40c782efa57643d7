-- ===== src/Reservations/Ending.antt =====
-- The end of a hold under the lock, against a description with no loop, no query and no lock.
use ticket_booking.Base.{
  ℕ, ◌≡◌, sym, ◌∙◌, ap, inl, inr, ◌⊎◌, some, none, List, In, ◌==◌, map, elem, if◌then◌else◌, Text,
  In-head?, In-perm, In-filter, map-cong-All, In-All, ==_iff,
}
use ticket_booking.Exceptions.{Error, Result, ok, err, value_error}
use ticket_booking.Models.{Seat, SeatStatus, Reservation, ReservationStatus, Tables}
use ticket_booking.Env.{Env}
use ticket_booking.Action.{Action, World}
use ticket_booking.Lock.{reservation_lock}
use ticket_booking.Lock.Rules.{Locked, refused, entered, reservation_lock-Locked}
use ticket_booking.Repositories.Reads.{get_reservation_by_id, seats_in}
use ticket_booking.Repositories.SeatUpdates.{keys, updated, update_seats-eq-map}
use ticket_booking.Repositories.Writes.{
  clear_seat, set_reservation_status, update_seats, write_seats,
}
use ticket_booking.Reservations.Common.{parse_all, finish}
use ticket_booking.Reservations.Counting.{with_status}
use ticket_booking.Reservations.Consistency.{
  finish_tables, elem-keys-seats_in, clear_seat-IsAssignment,
}
use ticket_booking.Reservations.Effects.{saved, Finished, unread, written, finish-Finished}

-- Each seat that the reservation lists has the status and no holder, the reservation has its last
-- status, and nothing else differs.
abbrev pub ended : SeatStatus → ReservationStatus → List ℕ → ℕ → Tables → Tables
ended st rst ids k t = record t {
  seats = map (λ s. if elem s.seat_id ids then clear_seat st s else s) t.seats;
  reservations =
      map (λ r. if r.reservation_id == k then record r { status = rst } else r) t.reservations;
}

module _ (env : Env) where
  pub finish_tables-eq-ended :
      (st : SeatStatus) (rst : ReservationStatus) (ids : List ℕ) (k : ℕ) (t : Tables)
      → finish_tables env st rst ids k t ≡ ended st rst ids k t
  unfolding write_seats set_reservation_status
  finish_tables-eq-ended st rst ids k t =
      ap (λ rows. record t { seats = rows; reservations = map (with_status rst k) t.reservations })
        rows
    where
      rows :
          update_seats (clear_seat st) (keys (seats_in env ids t)) t.seats
          ≡ map (updated (clear_seat st) ids) t.seats
      rows =
          update_seats-eq-map (clear_seat st) (clear_seat-IsAssignment st) _ t.seats
          ∙ map-cong-All _ _ t.seats (
              In-All _ t.seats (λ s m.
                ap (λ b. if b then clear_seat st s else s) (elem-keys-seats_in env ids t s m)))

  -- The assignments of a loop over the seats that a query for the listed ones returned, in
  -- any order, and of update_status, flushed to the tables, are these rows: each listed seat
  -- has the status and neither a holder nor the end of a hold, the reservation has its last
  -- status, and every other row and column is as it was.
  pub finish_tables-eq-rows :
      (st : SeatStatus) (rst : ReservationStatus) (ids : List ℕ) (k : ℕ) (t : Tables)
      → set_reservation_status rst k (write_seats (clear_seat st) (keys (seats_in env ids t)) t)
        ≡ record t {
          seats =
              map
                (λ s.
                  if elem s.seat_id ids
                  then record s { status = st; held_by = none; held_until = none }
                  else s)
                t.seats;
          reservations =
              map
                (λ r. if r.reservation_id == k then record r { status = rst } else r)
                t.reservations;
        }
  unfolding clear_seat
  finish_tables-eq-rows st rst ids k t = finish_tables-eq-ended st rst ids k t

  pub get_reservation_by_id-In :
      (k : ℕ) (t : Tables) (r : Reservation)
      → get_reservation_by_id env k t ≡ some r
      → In r t.reservations × (r.reservation_id ≡ k)
  unfolding get_reservation_by_id
  get_reservation_by_id-In k t r e =
      let (m, hit) =
        In-filter (λ x. x.reservation_id == k) r t.reservations
          (In-perm r (env.order-perm Reservation _) (In-head? r _ e)) in
      (m, (==_iff r.reservation_id k).0 hit)

  -- What a block that ends a hold may have done by the time that the lock is given back.
  pub data Ended (st : SeatStatus) (rst : ReservationStatus) (r : Reservation) (w : World env)
      (x : Result (List Seat) × World env) : Type 0 where
    untouched : (e : Error) → x.0 ≡ err e → x.1.session ≡ w.session → Ended st rst r w x
    through :
        (ids : List ℕ)
        → parse_all env r.seat_ids ≡ some ids
        → x.1.session ≡ saved (ended st rst ids r.reservation_id w.session.working)
        → ((seats : List Seat) → x.0 ≡ ok seats → seats ≡ seats_in env ids w.session.working)
        → Ended st rst r w x

  Finished-Ended :
      (st : SeatStatus) (rst : ReservationStatus) (r : Reservation) (w w' : World env)
      (y x : Result (List Seat) × World env)
      → w'.session ≡ w.session
      → Finished env st rst r w' y
      → y.1.session ≡ x.1.session
      → (x.0 ≡ y.0) ⊎ ((e : Error) × (x.0 ≡ err e))
      → Ended st rst r w x
  Finished-Ended st rst r w w' y x same (unread e h) out (inl res) =
      untouched value_error (res ∙ e) (sym out ∙ h ∙ same)
  Finished-Ended st rst r w w' y x same (unread e h) out (inr (f, res)) =
      untouched f res (sym out ∙ h ∙ same)
  Finished-Ended st rst r w w' y x same (written ids e h q) out res =
      through ids e
        (sym out
          ∙ h
          ∙ ap (λ s. saved (finish_tables env st rst ids r.reservation_id s.working)) same
          ∙ ap saved (finish_tables-eq-ended st rst ids r.reservation_id w.session.working))
        (λ seats k. elim res [
          | inl same_result ↦
              q seats (sym same_result ∙ k) ∙ ap (λ s. seats_in env ids s.working) same
          | inr (f, failed) ↦ cc
        ])

  pub finish-Ended :
      (event_id : Text) (r : Reservation) (st : SeatStatus) (rst : ReservationStatus)
      (w : World env)
      → Ended st rst r w (reservation_lock env event_id (finish env event_id r st rst) w)
  finish-Ended event_id r st rst w = go (reservation_lock-Locked env event_id block w)
    where
      block : Action env (List Seat)
      block = finish env event_id r st rst

      go :
          Locked env event_id block w (reservation_lock env event_id block w)
          → Ended st rst r w (reservation_lock env event_id block w)
      go (refused e _ h o) = untouched e (ap (λ z. z.0) h) o.0
      go (entered lock w' took same gave returns out res) =
          Finished-Ended st rst r w w' (block w') _ same.0
            (finish-Finished env event_id r st rst w') (sym (out.0)) res
