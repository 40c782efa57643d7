-- ===== src/History/Calls.antt =====
-- The outcomes of the services, as moves.
use ticket_booking.Base.{
  ℕ, ◌+◌, ◌≡◌, sym, ◌∙◌, ap, subst, inl, inr, Bool, true, false, not, some, List, any, ◌==◌, ==_iff,
  Text, any-In, any-map, any-false-In, In-filter, In-perm, arith, &&-eq-true,
}
use ticket_booking.Exceptions.{Result}
use ticket_booking.Models.{
  Seat, SeatStatus, available, Reservation, ReservationStatus, held, is_available, failed, Tables,
}
use ticket_booking.Env.{Env}
use ticket_booking.Action.{Session, World}
use ticket_booking.Repositories.Reads.{get_reservation_by_id, seats_of_event}
use ticket_booking.Repositories.SeatUpdates.{keys}
use ticket_booking.Repositories.Writes.{can_reserve}
use ticket_booking.Reservations.Common.{ReservationResponse, parse_all, reservation_hold}
use ticket_booking.Reservations.Holding.{
  held_for, held_at, HoldsAt, HoldOutcome, failed, unconfirmed, confirmed,
}
use ticket_booking.Reservations.Ending.{get_reservation_by_id-In}
use ticket_booking.Reservations.Atomicity.{Atomic}
use ticket_booking.Reservations.Steadiness.{parse_all-map}
use ticket_booking.History.Moves.{
  AreFree, IsOpen, IsEnd, Move, holds, ends, Reach, start, Reach-move, Reach-same,
}

module _ (env : Env) where
  is_available-available : (st : SeatStatus) → is_available st ≡ true → st ≡ available
  is_available-available st h = ground arith

  not-false : (b : Bool) → not b ≡ false → b ≡ true
  not-false b h = ground arith

  -- The seats that the query of `hold_seats` returned, none of them taken, are free.
  selected-AreFree :
      (ids : List ℕ) (event : ℕ) (t : Tables)
      → any (λ z. not (is_available z.status)) (seats_of_event env ids event t) ≡ false
      → AreFree (keys (seats_of_event env ids event t)) event t
  unfolding seats_of_event
  selected-AreFree ids event t free k e =
      let (s, m, hit) =
        any-In (λ s. s.seat_id == k) (seats_of_event env ids event t)
          (sym (any-map (λ s. s.seat_id) (λ j. j == k) (seats_of_event env ids event t)) ∙ e) in
      let (stored, chosen) = In-filter _ s t.seats (In-perm s (env.order-perm Seat _) m) in
      (
        s,
        stored,
        (==_iff s.seat_id k).0 hit,
        (==_iff s.event_id event).0 (&&-eq-true _ _ chosen).1,
        is_available-available s.status (not-false _ (any-false-In _ s _ free m)),
      )

  Holds-Move :
      (user_id event_id : Text) (ids : List ℕ) (o : env.E) (t : Tables) (resp : ReservationResponse)
      (s : Session)
      → HoldsAt env user_id event_id ids o t resp s
      → Move env t s.committed
  unfolding can_reserve
  Holds-Move user_id event_id ids o t resp s (user, event, r, pu, pe, free, size, clear, h, e, b) =
      holds (keys (seats_of_event env ids event t)) r
        (record {
          is_held = h.is_held;
          fresh = ground (arith, h.allowed);
          user = ground (arith, h.allowed);
          event = ground (arith, h.allowed);
        })
        (subst (λ z. AreFree (keys (seats_of_event env ids event t)) z t) (sym h.of_event)
          (selected-AreFree ids event t clear))
        (ap (parse_all env) h.of_seats ∙ parse_all-map env _)
        (ap (λ z. z.committed) e
          ∙ ap (λ z. held_for z (held_at env o + reservation_hold) chosen r t) (sym h.of_user)
          ∙ ap (λ z. held_for r.user_id z chosen r t) (sym h.until))
    where
      chosen : List ℕ
      chosen = keys (seats_of_event env ids event t)

  -- The committed tables have made some moves, and nothing is left uncommitted.
  abbrev pub Follows : Session → Session → Type 0
  Follows s s' = Reach env s.committed s'.committed × (s'.working ≡ s'.committed)

  pub found-IsOpen :
      (k : ℕ) (t : Tables) (r : Reservation) (ids : List ℕ)
      → get_reservation_by_id env k t ≡ some r
      → r.status ≡ held
      → parse_all env r.seat_ids ≡ some ids
      → IsOpen env r ids t
  found-IsOpen k t r ids found h p = record {
    stored = (get_reservation_by_id-In env k t r found).0;
    is_held = h;
    seats = p;
  }

  pub Atomic-Follows :
      (st : SeatStatus) (rst : ReservationStatus) (k : ℕ) (s s' : Session)
      → IsEnd st rst
      → s.working ≡ s.committed
      → Atomic env st rst k s.working s s'
      → Follows s s'
  Atomic-Follows st rst k s s' e clean (inl same) = subst (Follows s) (sym same) (start, clean)
  Atomic-Follows st rst k s s' e clean (inr (r, ids, found, h, p, q)) = (
    subst (λ z. Reach env z s'.committed) clean
        (Reach-move env (
          ends st rst ids r e (found-IsOpen k s.working r ids found h p)
            (ap (λ z. z.committed) q))),
    ap (λ z. z.working) q ∙ sym (ap (λ z. z.committed) q),
  )

  pub HoldOutcome-Reach :
      (user_id event_id : Text) (ids : List ℕ) (w : World env)
      (x : Result ReservationResponse × World env)
      → w.session.working ≡ w.session.committed
      → HoldOutcome env user_id event_id ids w x
      → Reach env w.session.committed x.1.session.committed
  HoldOutcome-Reach user_id event_id ids w x clean (failed e h c) = Reach-same env c
  HoldOutcome-Reach user_id event_id ids w x clean (unconfirmed e resp h (lock, w', took, p)) =
      subst (λ z. Reach env z x.1.session.committed) clean
        (Reach-move env (Holds-Move user_id event_id ids w'.outside w.session.working resp _ p))
  HoldOutcome-Reach user_id event_id ids w x clean (confirmed resp h (lock, w', took, p)) =
      subst (λ z. Reach env z x.1.session.committed) clean
        (Reach-move env (Holds-Move user_id event_id ids w'.outside w.session.working resp _ p))
