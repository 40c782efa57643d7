-- ===== src/Reservations/HoldCall.antt =====
-- What a whole call of `hold_seats` returns and stores, on every branch.
use ticket_booking.Base.{
  ℕ, ◌≡◌, refl, ◌∙◌, ap, subst, true, inl, inr, ◌⊎◌, some, List, Text, Option-cases,
}
use ticket_booking.Exceptions.{Error, Result, ok, err, value_error}
use ticket_booking.Models.{Seat, Reservation}
use ticket_booking.Env.{Env}
use ticket_booking.Action.{World, pure}
use ticket_booking.Action.Rules.{bind_result}
use ticket_booking.Lock.{RedisLock, acquire, reservation_lock}
use ticket_booking.Lock.Rules.{lock_of, Locked, refused, entered, reservation_lock-Locked}
use ticket_booking.Repositories.Reads.{seats_of_event}
use ticket_booking.Reservations.Common.{ReservationResponse, to_response, total_price}
use ticket_booking.Reservations.Hold.{hold_locked, hold_seats}
use ticket_booking.Reservations.Effects.{saved}
use ticket_booking.Reservations.Taking.{dropped, taken_by}
use ticket_booking.Reservations.Holding.{
  hold_tables-eq-held_for, Held, turned_down, placed, hold_locked-Held, Holds, HoldOutcome, failed,
  unconfirmed, confirmed,
}

module _ (env : Env) where
  -- The reply of `hold_seats`.
  reply : Reservation × List Seat → ReservationResponse
  reply p = to_response p.0 (total_price p.1)

  replying : Result (Reservation × List Seat) × World env → Result ReservationResponse × World env
  unfolding reply
  replying = bind_result (λ p. pure (reply p))

  replying-committed :
      (x : Result (Reservation × List Seat) × World env) → (replying x).1.session ≡ x.1.session
  unfolding replying
  replying-committed (ok p, w) = refl
  replying-committed (err e, w) = refl

  replying-err :
      (x : Result (Reservation × List Seat) × World env) (e : Error)
      → x.0 ≡ err e
      → (replying x).0 ≡ err e
  unfolding replying
  replying-err (ok p, w) e h = cc
  replying-err (err f, w) e h = cc

  replying-ok :
      (x : Result (Reservation × List Seat) × World env) (p : Reservation × List Seat)
      → x.0 ≡ ok p
      → (replying x).0 ≡ ok (reply p)
  unfolding replying
  replying-ok (ok q, w) p h = cc
  replying-ok (err f, w) p h = cc

  -- After the lock is given back: what the block has done, and whether an exception hides its reply.
  released :
      (user_id event_id : Text) (user event : ℕ) (ids : List ℕ) (w w' : World env)
      (lock : RedisLock) (y x : Result (Reservation × List Seat) × World env)
      → acquire env (lock_of env event_id) 3 100 w ≡ (ok (true, lock), w')
      → env.uuid_parse user_id ≡ some user
      → env.uuid_parse event_id ≡ some event
      → Held env event user ids w'.outside w.session y
      → x.1.session ≡ y.1.session
      → (x.0 ≡ y.0) ⊎ ((e : Error) × (x.0 ≡ err e))
      → HoldOutcome env user_id event_id ids w (replying x)
  unfolding reply
  released user_id event_id user event ids w w' lock y x took pu pe (turned_down e h c) out res =
      failed (elim res [ inl _ ↦ e | inr (f, _) ↦ f ])
        (elim res as (λ z. (replying x).0 ≡ err (elim z [ inl _ ↦ e | inr (f, _) ↦ f ])) [
          | inl k ↦ replying-err x e (k ∙ h)
          | inr (f, k) ↦ replying-err x f k
        ])
        (ap (λ z. z.committed) (replying-committed x ∙ out) ∙ c)
  released user_id event_id user event ids w w' lock y x took pu pe
        (placed free all_found clear (dropped e h c)) out res =
      failed (elim res [ inl _ ↦ e | inr (f, _) ↦ f ])
        (elim res as (λ z. (replying x).0 ≡ err (elim z [ inl _ ↦ e | inr (f, _) ↦ f ])) [
          | inl k ↦ replying-err x e (k ∙ h)
          | inr (f, k) ↦ replying-err x f k
        ])
        (ap (λ z. z.committed) (replying-committed x ∙ out) ∙ c)
  released user_id event_id user event ids w w' lock y x took pu pe
        (placed free all_found clear (taken_by r h a b c d e g t)) out res =
      elim res [
        | inl k ↦ confirmed resp (replying-ok x _ (k ∙ h)) stored
        | inr (f, k) ↦ unconfirmed f resp (replying-err x f k) stored
      ]
    where
      resp : ReservationResponse
      resp = reply (r, seats_of_event env ids event w.session.working)

      stored : Holds env user_id event_id ids w resp (replying x).1.session
      stored = (
        lock,
        w',
        took,
        (
          user,
          event,
          r,
          pu,
          pe,
          free,
          all_found,
          clear,
          record { is_held = a; of_user = b; of_event = c; of_seats = d; until = e; allowed = g },
          replying-committed x
              ∙ out
              ∙ t
              ∙ ap saved (hold_tables-eq-held_for _ _ _ r w.session.working),
          refl,
        ),
      )

  -- However hold_seats ends, it has committed nothing, or exactly the hold that was asked
  -- for. In that case the lock of the event was acquired, the user had at the first reading
  -- of the clock after that no live hold for the event, all seats were found in the event and
  -- available, and they are held for five minutes from the second reading under one new
  -- reservation. It returns that hold, or raises after the commit.
  pub hold_seats-Outcome :
      (user_id event_id : Text) (ids : List ℕ) (w : World env)
      → HoldOutcome env user_id event_id ids w (hold_seats env user_id event_id ids w)
  unfolding hold_seats replying reply
  hold_seats-Outcome user_id event_id ids w = elim (Option-cases (env.uuid_parse user_id)) [
    | inl a ↦ rw a (failed value_error refl refl)
    | inr (user, a) ↦ rw a (elim (Option-cases (env.uuid_parse event_id)) [
      | inl b ↦ rw b (failed value_error refl refl)
      | inr (event, b) ↦ rw b (
          locked user event a b (
            reservation_lock-Locked env event_id (hold_locked env user_id event_id user event ids)
              w))
    ])
  ]
    where
      locked :
          (user event : ℕ)
          → env.uuid_parse user_id ≡ some user
          → env.uuid_parse event_id ≡ some event
          → Locked env event_id
              (hold_locked env user_id event_id user event ids)
              w
              (reservation_lock env event_id (hold_locked env user_id event_id user event ids) w)
          → HoldOutcome env user_id event_id ids w (
              replying
                (reservation_lock env event_id (hold_locked env user_id event_id user event ids) w))
      locked user event a b (refused e _ h o) =
          failed e (replying-err _ e (ap (λ z. z.0) h))
            (ap (λ z. z.committed) (replying-committed _ ∙ o.0))
      locked user event a b (entered lock w' took same gave returns out res) =
          released user_id event_id user event ids w w' lock
            (hold_locked env user_id event_id user event ids w') _ took a b
            (subst
              (λ z.
                Held env event user ids w'.outside z
                  (hold_locked env user_id event_id user event ids w'))
              (same.0) (hold_locked-Held env user_id event_id user event ids w'))
            (out.0) res
