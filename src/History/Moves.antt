-- ===== src/History/Moves.antt =====
-- The moves of the database and the tables that they lead to.
use ticket_booking.Base.{ℕ, ◌≡◌, sym, subst, ◌≢◌, some, false, true, List, ◌∷◌, In, elem, any, ◌==◌}
use ticket_booking.Models.{
  Seat, SeatStatus, available, sold, Reservation, ReservationStatus, held, completed, cancelled,
  Payment, Tables,
}
use ticket_booking.Env.{Env}
use ticket_booking.Reservations.Common.{parse_all}
use ticket_booking.Reservations.Ending.{ended}
use ticket_booking.Reservations.Holding.{held_for}

-- The two ways in which a hold ends.
pub data IsEnd : SeatStatus → ReservationStatus → Type 0 where
  sells : IsEnd sold completed
  frees : IsEnd available cancelled

-- All of these seats are in the event and available.
abbrev pub AreFree : List ℕ → ℕ → Tables → Type 0
AreFree chosen event t =
    (k : ℕ)
    → elem k chosen ≡ true
    → (s : Seat) × In s t.seats × (s.seat_id ≡ k) × (s.event_id ≡ event) × (s.status ≡ available)

-- The event and the user are in the tables, and the primary key is new.
pub record IsNew (r : Reservation) (t : Tables) : Type 0 where
  pub is_held : r.status ≡ held
  pub fresh : any (λ x. x.reservation_id == r.reservation_id) t.reservations ≡ false
  pub user : any (λ u. u.user_id == r.user_id) t.users ≡ true
  pub event : any (λ e. e.event_id == r.event_id) t.events ≡ true

module _ (env : Env) where
  -- A reservation of the tables that is held, and its seats.
  pub record IsOpen (r : Reservation) (ids : List ℕ) (t : Tables) : Type 0 where
    pub stored : In r t.reservations
    pub is_held : r.status ≡ held
    pub seats : parse_all env r.seat_ids ≡ some ids

  pub data Move (t t' : Tables) : Type 0 where
    -- Free seats are held under a new reservation, until it expires.
    holds :
        (chosen : List ℕ) (r : Reservation)
        → IsNew r t
        → AreFree chosen r.event_id t
        → parse_all env r.seat_ids ≡ some chosen
        → t' ≡ held_for r.user_id r.expires_at chosen r t
        → Move t t'
    -- A hold ends as a whole.
    ends :
        (st : SeatStatus) (rst : ReservationStatus) (ids : List ℕ) (r : Reservation)
        → IsEnd st rst
        → IsOpen r ids t
        → t' ≡ ended st rst ids r.reservation_id t
        → Move t t'
    -- A payment that was not made, or is not known to be made.
    notes :
        (p : Payment)
        → p.status ≢ completed
        → t' ≡ record t { payments = p ∷ t.payments }
        → Move t t'
    -- A hold ends as a whole together with its payment.
    pays :
        (p : Payment) (ids : List ℕ) (r : Reservation)
        → IsOpen r ids t
        → p.reservation_id ≡ r.reservation_id
        → p.status ≡ completed
        → t' ≡ record (ended sold completed ids r.reservation_id t) { payments = p ∷ t.payments }
        → Move t t'

  pub data Reach (t : Tables) : Tables → Type 0 where
    start : Reach t t
    later : {u v : Tables} → Reach t u → Move u v → Reach t v

  pub Reach-trans : {t u v : Tables} → Reach t u → Reach u v → Reach t v
  Reach-trans a start = a
  Reach-trans a (later b m) = later (Reach-trans a b) m

  pub Reach-move : {t u : Tables} → Move t u → Reach t u
  Reach-move m = later start m

  pub Reach-same : {t u : Tables} → u ≡ t → Reach t u
  Reach-same {t} e = subst (Reach t) (sym e) start
