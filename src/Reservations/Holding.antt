-- ===== src/Reservations/Holding.antt =====
-- What `hold_seats` returns and stores, on every branch.
use ticket_booking.Base.{
  ℕ, ◌+◌, ◌≡◌, refl, ap, inl, inr, true, false, not, some, none, List, ◌∷◌, map, any, elem, length,
  ◌==◌, ==_iff, if◌then◌else◌, Text, Bool-cases, Option-cases,
}
use ticket_booking.Exceptions.{Error, Result, ok, err, seat_not_available, duplicate_reservation}
use ticket_booking.Models.{Seat, Reservation, held, is_available, Tables}
use ticket_booking.Env.{Env}
use ticket_booking.Action.{Session, World}
use ticket_booking.Lock.{RedisLock, acquire}
use ticket_booking.Lock.Rules.{lock_of}
use ticket_booking.Repositories.Reads.{seats_of_event, get_held_by_user_and_event}
use ticket_booking.Repositories.SeatUpdates.{keys, update_seats-eq-map}
use ticket_booking.Repositories.Writes.{can_reserve, hold_seat, write_seats, add_reservation}
use ticket_booking.Reservations.Common.{
  ReservationResponse, to_response, total_price, reservation_hold,
}
use ticket_booking.Reservations.Hold.{refuse_duplicate, hold_available, hold_locked}
use ticket_booking.Reservations.Consistency.{hold_tables, hold_seat-IsAssignment}
use ticket_booking.Reservations.Effects.{saved}
use ticket_booking.Reservations.Taking.{Taken, take_seats-Taken}

-- The chosen seats are held for the user until an instant, a reservation is added, and nothing else
-- differs.
abbrev pub held_for : ℕ → ℕ → List ℕ → Reservation → Tables → Tables
held_for user hold_until chosen r t = record t {
  seats = map (λ s. if elem s.seat_id chosen then hold_seat user hold_until s else s) t.seats;
  reservations = r ∷ t.reservations;
}

pub hold_tables-eq-held_for :
    (user hold_until : ℕ) (chosen : List ℕ) (r : Reservation) (t : Tables)
    → hold_tables user hold_until chosen r t ≡ held_for user hold_until chosen r t
unfolding add_reservation write_seats
hold_tables-eq-held_for user hold_until chosen r t =
    ap (λ rows. record t { seats = rows; reservations = r ∷ t.reservations })
      (update_seats-eq-map (hold_seat user hold_until) (hold_seat-IsAssignment user hold_until)
        chosen t.seats)

module _ (env : Env) where
  -- The first two readings of the clock from a world on: that of the search for a duplicate, and that
  -- from which the hold lasts.
  abbrev pub checked_at : env.E → ℕ
  checked_at o = (env.utcnow o).0

  abbrev pub held_at : env.E → ℕ
  held_at o = (env.utcnow (env.utcnow o).1).0

  -- What the block under the lock has done: nothing that is committed, or a hold of the seats asked
  -- for, all of which are the event's and were available.
  pub data Held (event_uuid user_uuid : ℕ) (ids : List ℕ) (o : env.E) (s : Session)
      (x : Result (Reservation × List Seat) × World env) : Type 0 where
    turned_down :
        (e : Error)
        → x.0 ≡ err e
        → x.1.session.committed ≡ s.committed
        → Held event_uuid user_uuid ids o s x
    placed :
        get_held_by_user_and_event env user_uuid event_uuid (checked_at o) s.working ≡ none
        → length (seats_of_event env ids event_uuid s.working) ≡ length ids
        → any (λ z. not (is_available z.status)) (seats_of_event env ids event_uuid s.working)
          ≡ false
        → Taken env event_uuid user_uuid
            (held_at o)
            (seats_of_event env ids event_uuid s.working)
            s
            x
        → Held event_uuid user_uuid ids o s x

  pub hold_locked-Held :
      (user_id event_id : Text) (user_uuid event_uuid : ℕ) (ids : List ℕ) (w : World env)
      → Held event_uuid user_uuid ids w.outside w.session
          (hold_locked env user_id event_id user_uuid event_uuid ids w)
  unfolding hold_locked hold_available refuse_duplicate
  hold_locked-Held user_id event_id user_uuid event_uuid ids w =
      elim (Option-cases
        (get_held_by_user_and_event env user_uuid event_uuid now w.session.working)) [
          | inr (r, e) ↦ rw e (turned_down duplicate_reservation refl refl)
          | inl e ↦ rw e (elim (Bool-cases (length seats == length ids)) [
            | inr f ↦ rw f (turned_down seat_not_available refl refl)
            | inl f ↦ rw f (elim (Bool-cases (any (λ z. not (is_available z.status)) seats)) [
              | inl g ↦ rw g (turned_down seat_not_available refl refl)
              | inr g ↦ rw g (
                  placed e ((==_iff _ _).0 f) g
                    (take_seats-Taken env user_id event_id user_uuid event_uuid seats w'))
            ])
          ])
        ]
    where
      now : ℕ
      now = (env.utcnow w.outside).0

      w' : World env
      w' = record w { outside = (env.utcnow w.outside).1 }

      seats : List Seat
      seats = seats_of_event env ids event_uuid w.session.working

  -- The reservation that a hold of some seats makes.
  pub record IsHoldOf (user event hold_until : ℕ) (chosen : List ℕ) (t : Tables) (r : Reservation)
      : Type 0 where
    pub is_held : r.status ≡ held
    pub of_user : r.user_id ≡ user
    pub of_event : r.event_id ≡ event
    pub of_seats : r.seat_ids ≡ map env.uuid_str chosen
    pub until : r.expires_at ≡ hold_until
    pub allowed : can_reserve r t ≡ true

  -- A hold that went through, with the clock as the block under the lock finds it at its start: the
  -- user had no live hold for the event at its first reading, the seats asked for were all found in
  -- the event and available, and they are committed as held for five minutes from its second reading
  -- under one new reservation.
  abbrev pub HoldsAt :
      Text → Text → List ℕ → env.E → Tables → ReservationResponse → Session → Type 0
  HoldsAt user_id event_id ids o t resp s =
      (user : ℕ) × (event : ℕ) × (r : Reservation) × (env.uuid_parse user_id ≡ some user)
      × (env.uuid_parse event_id ≡ some event)
      × (get_held_by_user_and_event env user event (checked_at o) t ≡ none)
      × (length (seats_of_event env ids event t) ≡ length ids)
      × (any (λ z. not (is_available z.status)) (seats_of_event env ids event t) ≡ false)
      × IsHoldOf user event (held_at o + reservation_hold) (keys (seats_of_event env ids event t)) t
          r
      × (s
          ≡ saved (
              held_for user (held_at o + reservation_hold) (keys (seats_of_event env ids event t)) r
                t))
      × (resp ≡ to_response r (total_price (seats_of_event env ids event t)))

  -- The block begins where the acquisition of the event's lock has ended.
  abbrev pub Holds : Text → Text → List ℕ → World env → ReservationResponse → Session → Type 0
  Holds user_id event_id ids w resp s =
      (lock : RedisLock) × (w' : World env) × (acquire env (lock_of env event_id) 3 100 w
        ≡ (ok (true, lock), w'))
      × HoldsAt user_id event_id ids w'.outside w.session.working resp s

  -- The database after a call of `hold_seats`, with what it returned.
  pub data HoldOutcome (user_id event_id : Text) (ids : List ℕ) (w : World env)
      (x : Result ReservationResponse × World env) : Type 0 where
    failed :
        (e : Error)
        → x.0 ≡ err e
        → x.1.session.committed ≡ w.session.committed
        → HoldOutcome user_id event_id ids w x
    unconfirmed :
        (e : Error) (resp : ReservationResponse)
        → x.0 ≡ err e
        → Holds user_id event_id ids w resp x.1.session
        → HoldOutcome user_id event_id ids w x
    confirmed :
        (resp : ReservationResponse)
        → x.0 ≡ ok resp
        → Holds user_id event_id ids w resp x.1.session
        → HoldOutcome user_id event_id ids w x
