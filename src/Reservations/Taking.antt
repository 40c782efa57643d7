-- ===== src/Reservations/Taking.antt =====
-- What the writing part of `hold_seats` stores, on every branch.
use ticket_booking.Base.{
  ℕ, ◌+◌, ◌≡◌, refl, sym, ◌∙◌, ap, subst, inl, inr, ◌⊎◌, true, List, map, arith, Text, Bool-cases,
}
use ticket_booking.Exceptions.{Error, Result, ok, err, integrity_error}
use ticket_booking.Models.{Seat, hold, Reservation, held}
use ticket_booking.Env.{Env}
use ticket_booking.Action.{Action, Session, World, ◌>>◌, pure, execute, commit}
use ticket_booking.Action.Rules.{bind_result, execute-Outside}
use ticket_booking.Repositories.SeatUpdates.{keys}
use ticket_booking.Repositories.Writes.{can_reserve, hold_seat, write_seats, add_reservation}
use ticket_booking.Reservations.Common.{reservation_hold, publish_seat_update}
use ticket_booking.Reservations.Hold.{create, set_holds, take_seats}
use ticket_booking.Reservations.Consistency.{hold_tables}
use ticket_booking.Reservations.Effects.{saved, publish-Outside}

module _ (env : Env) where
  -- What `take_seats` has done: nothing that is committed, or the whole hold.
  pub data Taken (event_uuid user_uuid now : ℕ) (seats : List Seat) (s : Session)
      (x : Result (Reservation × List Seat) × World env) : Type 0 where
    dropped :
        (e : Error)
        → x.0 ≡ err e
        → x.1.session.committed ≡ s.committed
        → Taken event_uuid user_uuid now seats s x
    taken_by :
        (r : Reservation)
        → x.0 ≡ ok (r, seats)
        → r.status ≡ held
        → r.user_id ≡ user_uuid
        → r.event_id ≡ event_uuid
        → r.seat_ids ≡ map env.uuid_str (keys seats)
        → r.expires_at ≡ now + reservation_hold
        → can_reserve r s.working ≡ true
        → x.1.session
          ≡ saved (hold_tables user_uuid (now + reservation_hold) (keys seats) r s.working)
        → Taken event_uuid user_uuid now seats s x

  -- The end of `take_seats`, from the pipeline on.
  finish_taking : Text → Text → Reservation → List Seat → Action env (Reservation × List Seat)
  finish_taking user_id event_id r seats = do
    execute env (set_holds env event_id user_id seats)
    commit
    publish_seat_update env event_id seats hold
    pure (r, seats)

  after_execute :
      (event_id : Text) (r : Reservation) (seats : List Seat)
      → Unit {0}
      → Action env (Reservation × List Seat)
  after_execute event_id r seats _ = do
    commit
    publish_seat_update env event_id seats hold
    pure (r, seats)

  -- What the end of `take_seats` has done.
  abbrev Kept :
      Reservation → List Seat → Session → Result (Reservation × List Seat) × World env → Type 0
  Kept r seats s x =
      ((e : Error) × (x.0 ≡ err e) × (x.1.session ≡ s))
      ⊎ ((x.0 ≡ ok (r, seats)) × (x.1.session ≡ saved s.working))

  after_execute-Kept :
      (event_id : Text) (r : Reservation) (seats : List Seat) (s : Session)
      (x : Result (Unit {0}) × World env)
      → x.1.session ≡ s
      → Kept r seats s (bind_result (after_execute event_id r seats) x)
  unfolding after_execute publish_seat_update
  after_execute-Kept event_id r seats s (err e, w) same = inl (e, refl, same)
  after_execute-Kept event_id r seats s (ok _, w) same = inr (
    refl,
    (publish-Outside env event_id seats hold (record w { session = saved w.session.working })).0
        ∙ ap (λ z. saved z.working) same,
  )

  finish_taking-Kept :
      (user_id event_id : Text) (r : Reservation) (seats : List Seat) (w : World env)
      → Kept r seats w.session (finish_taking user_id event_id r seats w)
  unfolding finish_taking after_execute
  finish_taking-Kept user_id event_id r seats w =
      after_execute-Kept event_id r seats w.session
        (execute env (set_holds env event_id user_id seats) w)
        (execute-Outside env (set_holds env event_id user_id seats) w).0

  -- What `create` has done: it was refused by a constraint, or has added a held reservation.
  data Created (user_id event_id : ℕ) (seat_ids : List Text) (expires_at : ℕ) (s : Session)
      (x : Result Reservation × World env) : Type 0 where
    rejected :
        (e : Error)
        → x.0 ≡ err e
        → x.1.session.committed ≡ s.committed
        → Created user_id event_id seat_ids expires_at s x
    created :
        (r : Reservation)
        → x.0 ≡ ok r
        → r.status ≡ held
        → r.user_id ≡ user_id
        → r.event_id ≡ event_id
        → r.seat_ids ≡ seat_ids
        → r.expires_at ≡ expires_at
        → can_reserve r s.working ≡ true
        → x.1.session ≡ record { working = add_reservation r s.working; committed = s.committed }
        → Created user_id event_id seat_ids expires_at s x

  create-Created :
      (user_id event_id : ℕ) (seat_ids : List Text) (expires_at : ℕ) (w : World env)
      → Created user_id event_id seat_ids expires_at w.session
          (create env user_id event_id seat_ids expires_at w)
  unfolding create
  create-Created user_id event_id seat_ids expires_at w =
      elim (Bool-cases (can_reserve r w.session.working)) [
        | inr f ↦ rw f (rejected integrity_error refl refl)
        | inl f ↦ rw f (created r refl refl refl refl refl refl f refl)
      ]
    where
      r : Reservation
      r = record {
        reservation_id = (env.uuid4 w.outside).0;
        user_id = user_id;
        event_id = event_id;
        seat_ids = seat_ids;
        status = held;
        created_at = (env.utcnow (env.uuid4 w.outside).1).0;
        expires_at = expires_at;
      }

  after_create :
      (user_id event_id : Text) (user_uuid event_uuid now : ℕ) (seats : List Seat) (s : Session)
      (x : Result Reservation × World env)
      → Created user_uuid event_uuid
          (map env.uuid_str (keys seats))
          (now + reservation_hold)
          (record {
            working =
                write_seats (hold_seat user_uuid (now + reservation_hold)) (keys seats) s.working;
            committed = s.committed;
          })
          x
      → Taken event_uuid user_uuid now seats s
          (bind_result (λ r. finish_taking user_id event_id r seats) x)
  unfolding can_reserve write_seats
  after_create user_id event_id user_uuid event_uuid now seats s (ok r', w') (rejected e h c) =
      absurd (ground arith)
  after_create user_id event_id user_uuid event_uuid now seats s (err f, w') (rejected e h c) =
      dropped f refl c
  after_create user_id event_id user_uuid event_uuid now seats s (err f, w')
        (created r h a b c d e g t) =
      absurd (ground arith)
  after_create user_id event_id user_uuid event_uuid now seats s (ok r', w')
        (created r h a b c d e g t) =
      elim (finish_taking-Kept user_id event_id r' seats w') [
        | inl (x, p, q) ↦ dropped x p (ap (λ z. z.committed) (q ∙ t))
        | inr (p, q) ↦
            (let same : r ≡ r' = cc in
              taken_by r' p (ap (λ y. y.status) (sym same) ∙ a) (ap (λ y. y.user_id) (sym same) ∙ b)
                (ap (λ y. y.event_id) (sym same) ∙ c) (ap (λ y. y.seat_ids) (sym same) ∙ d)
                (ap (λ y. y.expires_at) (sym same) ∙ e)
                (subst (λ y. can_reserve y s.working ≡ true) same g)
                (q
                  ∙ ap (λ z. saved z.working) t
                  ∙ ap
                      (λ y.
                        saved
                          (hold_tables user_uuid (now + reservation_hold) (keys seats) y s.working))
                      same))
      ]

  pub take_seats-Taken :
      (user_id event_id : Text) (user_uuid event_uuid : ℕ) (seats : List Seat) (w : World env)
      → Taken event_uuid user_uuid
          (env.utcnow w.outside).0
          seats
          w.session
          (take_seats env user_id event_id user_uuid event_uuid seats w)
  unfolding take_seats finish_taking
  take_seats-Taken user_id event_id user_uuid event_uuid seats w =
      after_create user_id event_id user_uuid event_uuid (env.utcnow w.outside).0 seats w.session _
        (create-Created user_uuid event_uuid (map env.uuid_str (keys seats))
          ((env.utcnow w.outside).0 + reservation_hold) _)
