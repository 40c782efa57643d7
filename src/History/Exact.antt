-- ===== src/History/Exact.antt =====
-- The agreement of seats and reservations, kind by kind, and that a seat is sold for good.
use ticket_booking.Base.{
  ℕ, ◌+◌, ◌≡◌, refl, sym, ap, subst, Bool, true, false, List, map, All, some, count, elem, ◌&&◌,
  if◌then◌else◌, arith,
}
use ticket_booking.Models.{
  Seat, SeatStatus, hold, sold, Reservation, ReservationStatus, is_held, Tables,
}
use ticket_booking.Env.{Env}
use ticket_booking.Repositories.Writes.{clear_seat}
use ticket_booking.Reservations.Common.{parse_all}
use ticket_booking.Reservations.Counting.{with_status, tally-with_status}
use ticket_booking.Reservations.Booking.{or_nil, lists}
use ticket_booking.History.Moves.{IsEnd, sells, frees, IsOpen}
use ticket_booking.History.Finality.{HasKeys}
use ticket_booking.History.Charges.{is_complete}

abbrev pub if_hold : SeatStatus → ℕ
if_hold hold = 1
if_hold _ = 0

abbrev pub if_sold : SeatStatus → ℕ
if_sold sold = 1
if_sold _ = 0

pub same-key :
    (f : Seat → Seat) (b : Bool) (s : Seat)
    → (f s).seat_id ≡ s.seat_id
    → (if b then f s else s).seat_id ≡ s.seat_id
same-key f true s h = h
same-key f false s h = refl

module _ (env : Env) where
  -- The held and the completed reservations that list a seat.
  abbrev pub holders : ℕ → List Reservation → ℕ
  holders k rs = count (λ r. is_held r.status && lists env k r) rs

  abbrev pub buyers : ℕ → List Reservation → ℕ
  buyers k rs = count (λ r. is_complete r.status && lists env k r) rs

  -- A seat is on hold exactly if one held reservation lists it, and sold exactly if one completed
  -- reservation does.
  abbrev pub Agrees : List Reservation → Seat → Type 0
  Agrees rs s = (holders s.seat_id rs ≡ if_hold s.status) × (buyers s.seat_id rs ≡ if_sold s.status)

  pub record IsExact (t : Tables) : Type 0 where
    pub unique : HasKeys t
    pub agreed : All (Agrees t.reservations) t.seats

  lists-as_status :
      (k : ℕ) (st : ReservationStatus) (r : Reservation)
      → lists env k (record r { status = st }) ≡ lists env k r
  unfolding lists
  lists-as_status k st r = refl

  pub lists-parsed :
      (k : ℕ) (ids : List ℕ) (r : Reservation)
      → parse_all env r.seat_ids ≡ some ids
      → lists env k r ≡ elem k ids
  unfolding lists
  lists-parsed k ids r p = ap (λ o. elem k (or_nil o)) p

  not-held : {st : SeatStatus} {rst : ReservationStatus} → IsEnd st rst → is_held rst ≡ false
  not-held sells = refl
  not-held frees = refl

  pub holders-ended :
      (k : ℕ) (st : SeatStatus) (rst : ReservationStatus) (ids : List ℕ) (r : Reservation)
      (t : Tables)
      → IsEnd st rst
      → HasKeys t
      → IsOpen env r ids t
      → holders k (map (with_status rst r.reservation_id) t.reservations)
          + (if elem k ids then 1 else 0)
        ≡ holders k t.reservations
  holders-ended k st rst ids r t w u o = ground (
    arith,
    not-held w,
    tally-with_status is_held (lists env k) (lists-as_status k) rst r t.reservations o.stored
        (u r.reservation_id),
    o.is_held,
    lists-parsed k ids r o.seats,
  )

  pub buyers-ended :
      (k : ℕ) (rst : ReservationStatus) (ids : List ℕ) (r : Reservation) (t : Tables)
      → HasKeys t
      → IsOpen env r ids t
      → buyers k (map (with_status rst r.reservation_id) t.reservations)
        ≡ buyers k t.reservations + (if is_complete rst && elem k ids then 1 else 0)
  buyers-ended k rst ids r t u o = ground (
    arith,
    tally-with_status is_complete (lists env k) (lists-as_status k) rst r t.reservations o.stored
        (u r.reservation_id),
    o.is_held,
    lists-parsed k ids r o.seats,
  )

  -- A seat and its claims after the end of a hold.
  row-agrees :
      (st : SeatStatus) (rst : ReservationStatus) (b : Bool) (a c a' c' : ℕ) (s : Seat)
      → IsEnd st rst
      → (a ≡ if_hold s.status) × (c ≡ if_sold s.status)
      → a' + (if b then 1 else 0) ≡ a
      → c' ≡ c + (if is_complete rst && b then 1 else 0)
      → (a' ≡ if_hold (if b then clear_seat st s else s).status)
        × (c' ≡ if_sold (if b then clear_seat st s else s).status)
  unfolding clear_seat
  row-agrees st rst true a c a' c' s sells h p q = ground arith
  row-agrees st rst true a c a' c' s frees h p q = ground arith
  row-agrees st rst false a c a' c' s sells h p q = ground arith
  row-agrees st rst false a c a' c' s frees h p q = ground arith

  pub ended_row :
      (st : SeatStatus) (rst : ReservationStatus) (ids : List ℕ) (r : Reservation) (t : Tables)
      → IsEnd st rst
      → HasKeys t
      → IsOpen env r ids t
      → (s : Seat) → Agrees t.reservations s
      → Agrees
          (map (with_status rst r.reservation_id) t.reservations)
          (if elem s.seat_id ids then clear_seat st s else s)
  unfolding clear_seat
  ended_row st rst ids r t w u o s h =
      subst
        (λ k.
          (holders k rows ≡ if_hold (if elem s.seat_id ids then clear_seat st s else s).status)
          × (buyers k rows ≡ if_sold (if elem s.seat_id ids then clear_seat st s else s).status))
        (sym (same-key (clear_seat st) (elem s.seat_id ids) s refl))
        (row-agrees st rst (elem s.seat_id ids) _ _ _ _ s w h
          (holders-ended s.seat_id st rst ids r t w u o) (buyers-ended s.seat_id rst ids r t u o))
    where
      rows : List Reservation
      rows = map (with_status rst r.reservation_id) t.reservations
