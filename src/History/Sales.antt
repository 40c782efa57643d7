-- ===== src/History/Sales.antt =====
-- Moves keep seats and reservations in agreement, and no move touches a seat that is sold.
use ticket_booking.Base.{
  ℕ, ◌+◌, ◌≡◌, refl, sym, ◌∙◌, ap, subst, Bool, true, false, List, ◌∷◌, map, In, All-map, All-In,
  some, elem, if◌then◌else◌, arith,
}
use ticket_booking.Models.{
  Seat, SeatStatus, sold, Reservation, ReservationStatus, held, completed, Payment, Tables,
}
use ticket_booking.Env.{Env}
use ticket_booking.Action.{World}
use ticket_booking.Repositories.Writes.{hold_seat, clear_seat}
use ticket_booking.Reservations.Common.{parse_all}
use ticket_booking.Reservations.Ending.{ended}
use ticket_booking.Reservations.Holding.{held_for}
use ticket_booking.Requests.{Request, serve_all}
use ticket_booking.History.Moves.{
  IsEnd, sells, AreFree, IsNew, IsOpen, Move, holds, ends, notes, pays, Reach, start, later,
}
use ticket_booking.History.Finality.{HasKeys, Move-HasKeys, In-map}
use ticket_booking.History.Exact.{
  if_hold, if_sold, holders, buyers, Agrees, IsExact, lists-parsed, holders-ended, ended_row,
  same-key,
}
use ticket_booking.History.Serving.{serve_all-Reach}

module _ (env : Env) where
  -- A free seat is listed by no live reservation.
  free-unlisted :
      (chosen : List ℕ) (event : ℕ) (t : Tables)
      → IsExact env t
      → AreFree chosen event t
      → (k : ℕ) → elem k chosen ≡ true
      → (holders env k t.reservations ≡ 0) × (buyers env k t.reservations ≡ 0)
  free-unlisted chosen event t x f k e =
      let (s, m, key, in_event, free) = f k e in
      let (a, c) = All-In (Agrees env t.reservations) s t.seats x.agreed m in
      (
        ap (λ j. holders env j t.reservations) (sym key) ∙ a ∙ ap if_hold free,
        ap (λ j. buyers env j t.reservations) (sym key) ∙ c ∙ ap if_sold free,
      )

  -- A seat and its claims after a hold.
  row-agrees :
      (user hold_until : ℕ) (b : Bool) (a c a' c' : ℕ) (s : Seat)
      → (a ≡ if_hold s.status) × (c ≡ if_sold s.status)
      → (b ≡ true → (a ≡ 0) × (c ≡ 0))
      → a' ≡ (if b then 1 else 0) + a
      → c' ≡ c
      → (a' ≡ if_hold (if b then hold_seat user hold_until s else s).status)
        × (c' ≡ if_sold (if b then hold_seat user hold_until s else s).status)
  unfolding hold_seat
  row-agrees user hold_until true a c a' c' s h free p q =
      (omega (arith, p, (free refl).0), q ∙ (free refl).1)
  row-agrees user hold_until false a c a' c' s h free p q = ground arith

  holders-add :
      (k : ℕ) (chosen : List ℕ) (r : Reservation) (rs : List Reservation)
      → r.status ≡ held
      → parse_all env r.seat_ids ≡ some chosen
      → holders env k (r ∷ rs) ≡ (if elem k chosen then 1 else 0) + holders env k rs
  holders-add k chosen r rs h p = ground (arith, lists-parsed env k chosen r p)

  held_row :
      (chosen : List ℕ) (r : Reservation) (t : Tables)
      → IsExact env t
      → r.status ≡ held
      → AreFree chosen r.event_id t
      → parse_all env r.seat_ids ≡ some chosen
      → (s : Seat) → Agrees env t.reservations s
      → Agrees env
          (r ∷ t.reservations)
          (if elem s.seat_id chosen then hold_seat r.user_id r.expires_at s else s)
  unfolding hold_seat
  held_row chosen r t x h f p s a =
      subst
        (λ k.
          (holders env k (r ∷ t.reservations) ≡ if_hold s'.status)
          × (buyers env k (r ∷ t.reservations) ≡ if_sold s'.status))
        (sym (same-key (hold_seat r.user_id r.expires_at) (elem s.seat_id chosen) s refl))
        (row-agrees r.user_id r.expires_at (elem s.seat_id chosen) _ _ _ _ s a
          (free-unlisted chosen r.event_id t x f s.seat_id)
          (holders-add s.seat_id chosen r t.reservations h p) (ground (arith, h)))
    where
      s' : Seat
      s' = if elem s.seat_id chosen then hold_seat r.user_id r.expires_at s else s

  held-IsExact :
      (chosen : List ℕ) (r : Reservation) (t : Tables)
      → IsExact env t
      → IsNew r t
      → AreFree chosen r.event_id t
      → parse_all env r.seat_ids ≡ some chosen
      → HasKeys (held_for r.user_id r.expires_at chosen r t)
      → IsExact env (held_for r.user_id r.expires_at chosen r t)
  held-IsExact chosen r t x n f p u = record {
    unique = u;
    agreed =
        All-map (Agrees env t.reservations) (Agrees env (r ∷ t.reservations))
          (λ s. if elem s.seat_id chosen then hold_seat r.user_id r.expires_at s else s) t.seats
          (λ s m. held_row chosen r t x n.is_held f p s) x.agreed;
  }

  ended-IsExact :
      (st : SeatStatus) (rst : ReservationStatus) (ids : List ℕ) (r : Reservation) (t : Tables)
      → IsExact env t
      → IsEnd st rst
      → IsOpen env r ids t
      → HasKeys (ended st rst ids r.reservation_id t)
      → IsExact env (ended st rst ids r.reservation_id t)
  ended-IsExact st rst ids r t x w o u = record {
    unique = u;
    agreed =
        All-map (Agrees env t.reservations)
          (Agrees env (ended st rst ids r.reservation_id t).reservations)
          (λ s. if elem s.seat_id ids then clear_seat st s else s) t.seats
          (λ s m. ended_row env st rst ids r t w x.unique o s) x.agreed;
  }

  with_payments-IsExact :
      (ps : List Payment) (t : Tables) → IsExact env t → IsExact env (record t { payments = ps })
  with_payments-IsExact ps t x = record { unique = x.unique; agreed = x.agreed }

  -- A row that a write leaves out is still there.
  left_out :
      (f : Seat → Seat) (ids : List ℕ) (s : Seat) (seats : List Seat)
      → In s seats
      → elem s.seat_id ids ≡ false
      → In s (map (λ z. if elem z.seat_id ids then f z else z) seats)
  left_out f ids s seats m e =
      subst (λ z. In z (map (λ z. if elem z.seat_id ids then f z else z) seats))
        (ap (λ b. if b then f s else s) e)
        (In-map (λ z. if elem z.seat_id ids then f z else z) s seats m)

  sold-not-chosen :
      (chosen : List ℕ) (event : ℕ) (t : Tables) (s : Seat)
      → IsExact env t
      → AreFree chosen event t
      → In s t.seats
      → s.status ≡ sold
      → elem s.seat_id chosen ≡ false
  sold-not-chosen chosen event t s x f m e = ground (
    arith,
    free-unlisted chosen event t x f s.seat_id,
    All-In (Agrees env t.reservations) s t.seats x.agreed m,
    e,
  )

  sold-not-listed :
      (st : SeatStatus) (rst : ReservationStatus) (ids : List ℕ) (r : Reservation) (t : Tables)
      (s : Seat)
      → IsExact env t
      → IsEnd st rst
      → IsOpen env r ids t
      → In s t.seats
      → s.status ≡ sold
      → elem s.seat_id ids ≡ false
  sold-not-listed st rst ids r t s x w o m e = ground (
    arith,
    holders-ended env s.seat_id st rst ids r t w x.unique o,
    All-In (Agrees env t.reservations) s t.seats x.agreed m,
    e,
  )

  -- A move keeps the agreement and every row of a seat that is sold.
  Sound : Tables → Tables → Type 0
  Sound t t' = IsExact env t' × ((s : Seat) → In s t.seats → s.status ≡ sold → In s t'.seats)

  Move-Sound : {t t' : Tables} → IsExact env t → Move env t t' → Sound t t'
  unfolding Sound
  Move-Sound {t} {t'} x (holds chosen r n f p e) = (
    subst (IsExact env) (sym e) (
        held-IsExact chosen r t x n f p
          (subst HasKeys e (Move-HasKeys env (holds chosen r n f p e) x.unique))),
    λ s m q.
        subst (λ z. In s z.seats) (sym e)
          (left_out _ chosen s t.seats m (sold-not-chosen chosen r.event_id t s x f m q)),
  )
  Move-Sound {t} {t'} x (ends st rst ids r w o e) = (
    subst (IsExact env) (sym e) (
        ended-IsExact st rst ids r t x w o
          (subst HasKeys e (Move-HasKeys env (ends st rst ids r w o e) x.unique))),
    λ s m q.
        subst (λ z. In s z.seats) (sym e)
          (left_out _ ids s t.seats m (sold-not-listed st rst ids r t s x w o m q)),
  )
  Move-Sound {t} {t'} x (notes p h e) = (
    subst (IsExact env) (sym e) (with_payments-IsExact _ t x),
    λ s m q. subst (λ z. In s z.seats) (sym e) m,
  )
  Move-Sound {t} {t'} x (pays p ids r o k c e) = (
    subst (IsExact env) (sym e) (
        with_payments-IsExact _ _ (
          ended-IsExact sold completed ids r t x sells o
            (subst HasKeys e (Move-HasKeys env (pays p ids r o k c e) x.unique)))),
    λ s m q.
        subst (λ z. In s z.seats) (sym e)
          (left_out _ ids s t.seats m (sold-not-listed sold completed ids r t s x sells o m q)),
  )

  Reach-Sound : {t t' : Tables} → IsExact env t → Reach env t t' → Sound t t'
  unfolding Sound
  Reach-Sound x start = (x, λ s m q. m)
  Reach-Sound x (later a m) =
      let (x', kept) = Reach-Sound x a in
      let (x'', kept') = Move-Sound x' m in (x'', λ s i q. kept' s (kept s i q) q)

  -- From committed tables in which no two reservations share a key and every seat is on hold
  -- exactly if one held reservation lists it, and sold exactly if one completed reservation
  -- does, any history of requests, each run as one step, leaves such tables, and the row of
  -- every seat that was sold is in them unchanged.
  pub serve_all-IsExact :
      (requests : List Request) (w : World env)
      → IsExact env w.session.committed
      → IsExact env (serve_all env requests w).session.committed
        × ((s : Seat)
            → In s w.session.committed.seats
            → s.status ≡ sold
            → In s (serve_all env requests w).session.committed.seats)
  unfolding Sound
  serve_all-IsExact requests w x = Reach-Sound x (serve_all-Reach env requests w)
