-- ===== src/Repositories/Reads.antt =====
-- The queries of the repositories and services. A query without ORDER BY returns its rows in the
-- order of the SQL engine.
use ticket_booking.Base.{
  ◌≡◌, refl, ap, sym, some, none, any-perm, Option-cases, inl, inr, true, ◌∙◌, false, [], ◌∷◌, any,
  length, length-perm, arith, ℕ, Bool, Option, List, ◌&&◌, ◌==◌, ltb, elem, filter, head?,
}
use mathlib.Core.Bool.{false≢true}
use ticket_booking.Models.{Seat, Reservation, Payment, Tables, is_held}
use ticket_booking.Env.{Env}

module _ (env : Env) where
  -- `db.query(T).filter(p).all()` and `.first()`
  abbrev pub select : {A : Type 0} → (A → Bool) → List A → List A
  select {A} p rows = env.order A (filter p rows)

  abbrev pub select_first : {A : Type 0} → (A → Bool) → List A → Option A
  select_first p rows = head? (select p rows)

  -- `ReservationRepository.get_by_id`
  unfoldable pub get_reservation_by_id : ℕ → Tables → Option Reservation
  get_reservation_by_id k t = select_first (λ r. r.reservation_id == k) t.reservations

  -- `get_held_by_user_and_event`, at the instant `now`
  unfoldable pub get_held_by_user_and_event : ℕ → ℕ → ℕ → Tables → Option Reservation
  get_held_by_user_and_event user_id event_id now t =
      select_first
        (λ r.
          (r.user_id == user_id)
          && ((r.event_id == event_id) && (is_held r.status && ltb now r.expires_at)))
        t.reservations

  -- `get_held_by_user`
  unfoldable pub get_held_by_user : ℕ → Tables → List Reservation
  get_held_by_user user_id t =
      select (λ r. (r.user_id == user_id) && is_held r.status) t.reservations

  -- `get_expired_held`, at the instant `now`
  unfoldable pub get_expired_held : ℕ → Tables → List Reservation
  get_expired_held now t = select (λ r. is_held r.status && ltb r.expires_at now) t.reservations

  -- The seats of `hold_seats`: those asked for, of the event.
  unfoldable pub seats_of_event : List ℕ → ℕ → Tables → List Seat
  seats_of_event ids event_id t =
      select (λ s. elem s.seat_id ids && (s.event_id == event_id)) t.seats

  -- `Seat.seat_id.in_(ids)`
  unfoldable pub seats_in : List ℕ → Tables → List Seat
  seats_in ids t = select (λ s. elem s.seat_id ids) t.seats

  -- `PaymentRepository.get_by_id`
  unfoldable pub get_payment_by_id : ℕ → Tables → Option Payment
  get_payment_by_id k t = select_first (λ p. p.payment_id == k) t.payments

  filter-none :
      {A : Type 0} (p : A → Bool) (rows : List A) → any p rows ≡ false → filter p rows ≡ []
  filter-none p [] h = refl
  filter-none p (r ∷ rows) h = ground (arith, filter-none p rows)

  empty : {A : Type 0} (xs : List A) → length xs ≡ 0 → xs ≡ []
  empty [] h = refl
  empty (x ∷ xs) h = absurd (omega (arith, h))

  -- A query that no row meets returns none.
  pub select-none :
      {A : Type 0} (p : A → Bool) (rows : List A) → any p rows ≡ false → select p rows ≡ []
  select-none {A} p rows h =
      empty (select p rows)
        (length-perm (env.order-perm A (filter p rows)) ∙ ap length (filter-none p rows h))

  any-filter : {A : Type 0} (p : A → Bool) (rows : List A) → any p (filter p rows) ≡ any p rows
  any-filter p [] = refl
  any-filter p (r ∷ rows) = ground (arith, any-filter p rows)

  any-head? : {A : Type 0} (p : A → Bool) (rows : List A) → head? rows ≡ none → any p rows ≡ false
  any-head? p [] h = refl
  any-head? p (r ∷ rows) h = cc

  pub first_found :
      {A : Type 0} (p : A → Bool) (rows : List A)
      → any p rows ≡ true
      → (a : A) × (select_first p rows ≡ some a)
  first_found {A} p rows h = elim (Option-cases (select_first p rows)) [
    | inr (a, e) ↦ (a, e)
    | inl e ↦ absurd (
        false≢true (
          sym (any-head? p (select p rows) e)
          ∙ any-perm p (env.order-perm A (filter p rows))
          ∙ any-filter p rows
          ∙ h))
  ]
