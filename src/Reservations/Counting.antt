-- ===== src/Reservations/Counting.antt =====
-- How the end of one reservation moves the number of reservations that pass a test.
use ticket_booking.Base.{
  ℕ, ◌+◌, ◌≤◌, ◌≡◌, refl, sym, subst, ap, inl, inr, Bool, false, any, List, [], ◌∷◌, map, count, In,
  ◌&&◌, ◌==◌, if◌then◌else◌, arith,
}
use ticket_booking.Models.{Reservation, ReservationStatus}

abbrev pub with_status : ReservationStatus → ℕ → Reservation → Reservation
with_status st k r = if r.reservation_id == k then record r { status = st } else r

-- The reservations with a primary key.
abbrev pub with_key : ℕ → List Reservation → ℕ
with_key k rs = count (λ r. r.reservation_id == k) rs

pub with_key-with_status :
    (k j : ℕ) (st : ReservationStatus) (rs : List Reservation)
    → with_key k (map (with_status st j) rs) ≡ with_key k rs
with_key-with_status k j st [] = refl
with_key-with_status k j st (r ∷ rs) = ground (arith, with_key-with_status k j st rs)

pub present : (r : Reservation) (rs : List Reservation) → In r rs → 1 ≤ with_key r.reservation_id rs
present r [] m = absurd m
present r (x ∷ rs) (inl e) = ground (arith, ap (λ y. y.reservation_id) e)
present r (x ∷ rs) (inr m) = ground (arith, present r rs m)

pub absent :
    (k : ℕ) (rs : List Reservation)
    → any (λ x. x.reservation_id == k) rs ≡ false
    → with_key k rs ≡ 0
absent k [] e = refl
absent k (r ∷ rs) e = ground (arith, absent k rs)

abbrev as_status : ReservationStatus → Reservation → Reservation
as_status st r = record r { status = st }

-- A test of the status together with one of what never changes.
module _ (q : ReservationStatus → Bool) (l : Reservation → Bool)
    (fixed : (st : ReservationStatus) (r : Reservation) → l (as_status st r) ≡ l r) where
  abbrev pub tally : List Reservation → ℕ
  tally rs = count (λ r. q r.status && l r) rs

  abbrev pub weight : ReservationStatus → Reservation → ℕ
  weight st r = if q st && l r then 1 else 0

  tally-absent :
      (j : ℕ) (st : ReservationStatus) (rs : List Reservation)
      → with_key j rs ≡ 0
      → tally (map (with_status st j) rs) ≡ tally rs
  tally-absent j st [] h = refl
  tally-absent j st (r ∷ rs) h = ground (arith, tally-absent j st rs)

  tally-head :
      (st : ReservationStatus) (r : Reservation) (rs : List Reservation)
      → with_key r.reservation_id (r ∷ rs) ≤ 1
      → tally (map (with_status st r.reservation_id) (r ∷ rs)) + weight r.status r
        ≡ tally (r ∷ rs) + weight st r
  tally-head st r rs h = ground (arith, fixed st r, tally-absent r.reservation_id st rs)

  -- The change of one reservation's status moves the tally by that reservation's own.
  pub tally-with_status :
      (st : ReservationStatus) (r : Reservation) (rs : List Reservation)
      → In r rs
      → with_key r.reservation_id rs ≤ 1
      → tally (map (with_status st r.reservation_id) rs) + weight r.status r
        ≡ tally rs + weight st r
  tally-with_status st r [] m h = absurd m
  tally-with_status st r (x ∷ rs) (inl e) h =
      subst
        (λ y.
          with_key r.reservation_id (y ∷ rs) ≤ 1
          → tally (map (with_status st r.reservation_id) (y ∷ rs)) + weight r.status r
            ≡ tally (y ∷ rs) + weight st r)
        (sym e) (tally-head st r rs) h
  tally-with_status st r (x ∷ rs) (inr m) h =
      ground (arith, fixed st x, present r rs m, tally-with_status st r rs m)
