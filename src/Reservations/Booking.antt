-- ===== src/Reservations/Booking.antt =====
-- The agreement of the tables `seats` and `reservations`: a seat is taken exactly when one live
-- reservation lists it.
use ticket_booking.Base.{
  ℕ, ◌+◌, ◌≤◌, ◌≡◌, refl, Bool, true, false, Option, some, none, List, [], map, elem, count, All,
  In, ◌&&◌, if◌then◌else◌,
}
use ticket_booking.Models.{SeatStatus, available, Reservation, ReservationStatus, cancelled, Tables}
use ticket_booking.Env.{Env}
use ticket_booking.Reservations.Common.{parse_all}
use ticket_booking.Reservations.Counting.{with_status, with_key, tally-with_status}

-- A reservation whose seats are taken: held or paid.
abbrev pub is_live : ReservationStatus → Bool
is_live cancelled = false
is_live _ = true

-- How many live reservations a seat in this status has.
abbrev pub taken : SeatStatus → ℕ
taken available = 0
taken _ = 1

abbrev pub or_nil : Option (List ℕ) → List ℕ
or_nil none = []
or_nil (some ks) = ks

module _ (env : Env) where
  -- The seats that a reservation lists.
  unfoldable pub lists : ℕ → Reservation → Bool
  lists k r = elem k (or_nil (parse_all env r.seat_ids))

  abbrev pub claims : ℕ → List Reservation → ℕ
  claims k rs = count (λ r. is_live r.status && lists k r) rs

  pub record IsConsistent (t : Tables) : Type 0 where
    pub claimed : All (λ s. claims s.seat_id t.reservations ≡ taken s.status) t.seats
    pub unique : (k : ℕ) → with_key k t.reservations ≤ 1

  lists-as_status :
      (k : ℕ) (st : ReservationStatus) (r : Reservation)
      → lists k (record r { status = st }) ≡ lists k r
  unfolding lists
  lists-as_status k st r = refl

  -- What one reservation, in some status, claims of a seat.
  unfoldable pub weigh : ℕ → Reservation → ReservationStatus → ℕ
  weigh k r st = if is_live st && lists k r then 1 else 0

  -- The change of one reservation's status moves the claims on a seat by that reservation's own.
  pub claims-with_status :
      (k : ℕ) (st : ReservationStatus) (r : Reservation) (rs : List Reservation)
      → In r rs
      → with_key r.reservation_id rs ≤ 1
      → claims k (map (with_status st r.reservation_id) rs) + weigh k r r.status
        ≡ claims k rs + weigh k r st
  unfolding weigh lists
  claims-with_status k st r rs m h =
      tally-with_status is_live (lists k) (lists-as_status k) st r rs m h
