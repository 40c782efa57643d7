-- ===== src/Reservations/Consistency.antt =====
-- The writes of the operations on consistent tables.
use ticket_booking.Base.{
  ℕ, ◌≡◌, refl, sym, ◌∙◌, ap, true, false, not, some, List, [], ◌∷◌, map, elem, any, All, In, ◌&&◌,
  ◌==◌, ==_iff, if◌then◌else◌, arith, All-map, All-In, any-In, In-any, any-false-In, In-perm,
  In-filter, any-map,
}
use ticket_booking.Models.{
  Seat, SeatStatus, Reservation, ReservationStatus, cancelled, Tables, is_available,
}
use ticket_booking.Env.{Env}
use ticket_booking.Repositories.Reads.{seats_in, seats_of_event}
use ticket_booking.Repositories.SeatUpdates.{
  keys, updated, IsAssignment, update_seats-eq-map, elem-keys-select,
}
use ticket_booking.Repositories.Writes.{
  hold_seat, clear_seat, add_reservation, set_reservation_status, write_seats,
}
use ticket_booking.Reservations.Common.{parse_all}
use ticket_booking.Reservations.Booking.{
  is_live, or_nil, taken, lists, claims, weigh, IsConsistent, claims-with_status,
}
use ticket_booking.Reservations.Counting.{with_key, with_status, with_key-with_status, absent}

pub hold_seat-IsAssignment : (u k : ℕ) → IsAssignment (hold_seat u k)
unfolding hold_seat
hold_seat-IsAssignment u k = record { same_key = λ s. refl; once = λ s. refl }

pub clear_seat-IsAssignment : (st : SeatStatus) → IsAssignment (clear_seat st)
unfolding clear_seat
clear_seat-IsAssignment st = record { same_key = λ s. refl; once = λ s. refl }

-- The tables after the writes of `hold_seats`.
abbrev pub hold_tables : ℕ → ℕ → List ℕ → Reservation → Tables → Tables
hold_tables user hold_until ids r t =
    add_reservation r (write_seats (hold_seat user hold_until) ids t)

module _ (env : Env) where
  -- The tables after the writes of `finish`.
  abbrev pub finish_tables : SeatStatus → ReservationStatus → List ℕ → ℕ → Tables → Tables
  finish_tables st rst ids k t =
      set_reservation_status rst k (write_seats (clear_seat st) (keys (seats_in env ids t)) t)

  any-key :
      (k : ℕ) (ids : List ℕ) (rows : List Seat)
      → any (λ s. (s.seat_id == k) && elem s.seat_id ids) rows
        ≡ (any (λ s. s.seat_id == k) rows && elem k ids)
  any-key k ids [] = refl
  any-key k ids (s ∷ rows) = ground (arith, any-key k ids rows, ap (λ j. elem j ids))

  -- The query for some seats returns those of them that are in the table.
  pub elem-keys-seats_in :
      (ids : List ℕ) (t : Tables) (s : Seat)
      → In s t.seats
      → elem s.seat_id (keys (seats_in env ids t)) ≡ elem s.seat_id ids
  unfolding seats_in
  elem-keys-seats_in ids t s m =
      elem-keys-select env s.seat_id (λ x. elem x.seat_id ids) t.seats
      ∙ any-key s.seat_id ids t.seats
      ∙ ap (λ b. b && elem s.seat_id ids)
          (In-any _ s t.seats m ((==_iff s.seat_id s.seat_id).1 refl))

  -- The seat that a row has become, and the claims on it.
  finish_row :
      (st : SeatStatus) (rst : ReservationStatus) (ids : List ℕ) (r : Reservation) (t : Tables)
      → IsConsistent env t
      → In r t.reservations
      → is_live r.status ≡ true
      → parse_all env r.seat_ids ≡ some ids
      → taken st ≡ (if is_live rst then 1 else 0)
      → (s : Seat) → In s t.seats
      → claims env s.seat_id t.reservations ≡ taken s.status
      → let s' = updated (clear_seat st) (keys (seats_in env ids t)) s in
        claims env s'.seat_id (map (with_status rst r.reservation_id) t.reservations)
        ≡ taken s'.status
  unfolding weigh lists clear_seat
  finish_row st rst ids r t c m live e ts s ms h = ground (
    arith,
    ap (elem s.seat_id) (ap or_nil e),
    elem-keys-seats_in ids t s ms,
    claims-with_status env s.seat_id rst r t.reservations m (c.unique r.reservation_id),
    claims-with_status env s.seat_id cancelled r t.reservations m (c.unique r.reservation_id),
  )

  -- The end of one live reservation keeps the tables consistent, if the new status of its seats fits
  -- its own.
  pub finish_tables-IsConsistent :
      (st : SeatStatus) (rst : ReservationStatus) (ids : List ℕ) (r : Reservation) (t : Tables)
      → IsConsistent env t
      → In r t.reservations
      → is_live r.status ≡ true
      → parse_all env r.seat_ids ≡ some ids
      → taken st ≡ (if is_live rst then 1 else 0)
      → IsConsistent env (finish_tables st rst ids r.reservation_id t)
  unfolding set_reservation_status write_seats
  finish_tables-IsConsistent st rst ids r t c m live e ts = record {
    claimed = rw (update_seats-eq-map (clear_seat st) (clear_seat-IsAssignment st)) rows;
    unique = λ k. rw (with_key-with_status k r.reservation_id rst t.reservations) (c.unique k);
  }
    where
      rows :
          All
            (λ s.
              claims env s.seat_id (map (with_status rst r.reservation_id) t.reservations)
              ≡ taken s.status)
            (map (updated (clear_seat st) (keys (seats_in env ids t))) t.seats)
      rows =
          All-map _ _ (updated (clear_seat st) (keys (seats_in env ids t))) t.seats
            (finish_row st rst ids r t c m live e ts) c.claimed

  -- A seat that the query of `hold_seats` returned was free.
  selected_free :
      (ids : List ℕ) (event_id : ℕ) (t : Tables) (k : ℕ)
      → IsConsistent env t
      → any (λ s. not (is_available s.status)) (seats_of_event env ids event_id t) ≡ false
      → elem k (keys (seats_of_event env ids event_id t)) ≡ true
      → claims env k t.reservations ≡ 0
  unfolding seats_of_event
  selected_free ids event_id t k c free e = ground (
    arith,
    hit.2,
    row,
    any-false-In (λ s. not (is_available s.status)) hit.0 _ free hit.1,
    ap (λ j. claims env j t.reservations) ((==_iff (hit.0).seat_id k).0 hit.2),
  )
    where
      hit : (s : Seat) × In s (seats_of_event env ids event_id t) × ((s.seat_id == k) ≡ true)
      hit =
          any-In (λ s. s.seat_id == k) _
            (sym (any-map (λ s. s.seat_id) (λ j. j == k) (seats_of_event env ids event_id t)) ∙ e)

      row : claims env (hit.0).seat_id t.reservations ≡ taken (hit.0).status
      row =
          All-In _ hit.0 t.seats c.claimed
            (In-filter _ hit.0 t.seats (In-perm hit.0 (env.order-perm Seat _) hit.1)).0

  hold_row :
      (user hold_until : ℕ) (ids : List ℕ) (r : Reservation) (t : Tables)
      → (is_live r.status ≡ true)
      → parse_all env r.seat_ids ≡ some ids
      → (s : Seat) → (elem s.seat_id ids ≡ true → claims env s.seat_id t.reservations ≡ 0)
      → claims env s.seat_id t.reservations ≡ taken s.status
      → let s' = updated (hold_seat user hold_until) ids s in
        claims env s'.seat_id (r ∷ t.reservations) ≡ taken s'.status
  unfolding hold_seat lists
  hold_row user hold_until ids r t live e s free h =
      ground (arith, ap (elem s.seat_id) (ap or_nil e))

  -- A hold of free seats keeps the tables consistent.
  pub hold_tables-IsConsistent :
      (user hold_until : ℕ) (ids : List ℕ) (event_id : ℕ) (r : Reservation) (t : Tables)
      → IsConsistent env t
      → any (λ s. not (is_available s.status)) (seats_of_event env ids event_id t) ≡ false
      → parse_all env r.seat_ids ≡ some (keys (seats_of_event env ids event_id t))
      → is_live r.status ≡ true
      → any (λ x. x.reservation_id == r.reservation_id) t.reservations ≡ false
      → IsConsistent env
          (hold_tables user hold_until (keys (seats_of_event env ids event_id t)) r t)
  unfolding add_reservation write_seats
  hold_tables-IsConsistent user hold_until ids event_id r t c free e live fresh = record {
    claimed =
        rw
          (update_seats-eq-map (hold_seat user hold_until) (hold_seat-IsAssignment user hold_until))
          rows;
    unique = λ k. ground (
      arith,
      c.unique k,
      absent r.reservation_id t.reservations fresh,
      ap (λ j. with_key j t.reservations),
    );
  }
    where
      chosen : List ℕ
      chosen = keys (seats_of_event env ids event_id t)

      rows :
          All
            (λ s. claims env s.seat_id (r ∷ t.reservations) ≡ taken s.status)
            (map (updated (hold_seat user hold_until) chosen) t.seats)
      rows =
          All-map _ _ (updated (hold_seat user hold_until) chosen) t.seats
            (λ s m h.
              hold_row user hold_until chosen r t live e s
                (selected_free ids event_id t s.seat_id c free) h)
            c.claimed
