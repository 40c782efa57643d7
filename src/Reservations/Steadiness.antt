-- ===== src/Reservations/Steadiness.antt =====
-- Every outcome of the operations keeps the tables consistent.
use ticket_booking.Base.{
  ℕ, ◌+◌, ◌≡◌, refl, sym, ◌∙◌, ap, subst, inl, inr, false, not, some, List, [], ◌∷◌, map, any, Text,
  In, if◌then◌else◌, arith,
}
use ticket_booking.Exceptions.{Result}
use ticket_booking.Models.{SeatStatus, Reservation, ReservationStatus, held, is_available, Tables}
use ticket_booking.Env.{Env}
use ticket_booking.Action.{Session, World}
use ticket_booking.Repositories.Reads.{get_reservation_by_id, seats_of_event}
use ticket_booking.Repositories.SeatUpdates.{keys}
use ticket_booking.Repositories.Writes.{can_reserve}
use ticket_booking.Reservations.Common.{ReservationResponse, parse_all, reservation_hold}
use ticket_booking.Reservations.Booking.{is_live, taken, IsConsistent}
use ticket_booking.Reservations.Consistency.{finish_tables-IsConsistent, hold_tables-IsConsistent}
use ticket_booking.Reservations.Effects.{saved}
use ticket_booking.Reservations.Ending.{ended, finish_tables-eq-ended, get_reservation_by_id-In}
use ticket_booking.Reservations.Atomicity.{Atomic}
use ticket_booking.Reservations.Holding.{
  held_for, hold_tables-eq-held_for, IsHoldOf, held_at, HoldsAt, HoldOutcome, failed, unconfirmed,
  confirmed,
}

module _ (env : Env) where
  -- The committed tables are consistent and the session has nothing that is not committed.
  pub record IsSteady (s : Session) : Type 0 where
    pub sound : IsConsistent env s.committed
    pub clean : s.working ≡ s.committed

  pub saved-IsSteady : (t : Tables) → IsConsistent env t → IsSteady (saved t)
  saved-IsSteady t c = record { sound = c; clean = refl }

  -- The new status of the seats fits that of the reservation.
  abbrev pub Fits : SeatStatus → ReservationStatus → Type 0
  Fits st rst = taken st ≡ (if is_live rst then 1 else 0)

  pub stored-IsConsistent :
      (st : SeatStatus) (rst : ReservationStatus) (ids : List ℕ) (r : Reservation) (t : Tables)
      → Fits st rst
      → IsConsistent env t
      → In r t.reservations
      → r.status ≡ held
      → parse_all env r.seat_ids ≡ some ids
      → IsConsistent env (ended st rst ids r.reservation_id t)
  stored-IsConsistent st rst ids r t fits c m h e =
      subst (IsConsistent env) (finish_tables-eq-ended env st rst ids r.reservation_id t)
        (finish_tables-IsConsistent env st rst ids r t c m (ground arith) e fits)

  pub ended-IsConsistent :
      (st : SeatStatus) (rst : ReservationStatus) (ids : List ℕ) (k : ℕ) (r : Reservation)
      (t : Tables)
      → Fits st rst
      → IsConsistent env t
      → get_reservation_by_id env k t ≡ some r
      → r.status ≡ held
      → parse_all env r.seat_ids ≡ some ids
      → IsConsistent env (ended st rst ids r.reservation_id t)
  ended-IsConsistent st rst ids k r t fits c found h e =
      stored-IsConsistent st rst ids r t fits c (get_reservation_by_id-In env k t r found).0 h e

  pub Atomic-IsSteady :
      (st : SeatStatus) (rst : ReservationStatus) (k : ℕ) (s s' : Session)
      → Fits st rst
      → IsSteady s
      → Atomic env st rst k s.working s s'
      → IsSteady s'
  Atomic-IsSteady st rst k s s' fits v (inl e) = subst IsSteady (sym e) v
  Atomic-IsSteady st rst k s s' fits v (inr (r, ids, found, h, e, q)) = subst IsSteady (sym q) (
      saved-IsSteady _ (
        ended-IsConsistent st rst ids k r s.working fits
          (subst (IsConsistent env) (sym (v.clean)) v.sound) found h e))

  pub parse_all-map : (ks : List ℕ) → parse_all env (map env.uuid_str ks) ≡ some ks
  unfolding parse_all
  parse_all-map [] = refl
  parse_all-map (k ∷ ks) = rw (env.uuid_parse-uuid_str k, parse_all-map ks)

  held_for-IsConsistent :
      (ids : List ℕ) (user event hold_until : ℕ) (r : Reservation) (t : Tables)
      → IsConsistent env t
      → any (λ z. not (is_available z.status)) (seats_of_event env ids event t) ≡ false
      → IsHoldOf env user event hold_until (keys (seats_of_event env ids event t)) t r
      → IsConsistent env (held_for user hold_until (keys (seats_of_event env ids event t)) r t)
  unfolding can_reserve
  held_for-IsConsistent ids user event hold_until r t c free h =
      subst (IsConsistent env) (hold_tables-eq-held_for user hold_until _ r t) (
        hold_tables-IsConsistent env user hold_until ids event r t c free
          (ap (parse_all env) h.of_seats ∙ parse_all-map _) (ground (arith, h.is_held))
          (ground (arith, h.allowed)))

  Holds-IsConsistent :
      (user_id event_id : Text) (ids : List ℕ) (o : env.E) (t : Tables) (resp : ReservationResponse)
      (s : Session)
      → IsConsistent env t
      → HoldsAt env user_id event_id ids o t resp s
      → IsConsistent env s.committed
  Holds-IsConsistent user_id event_id ids o t resp s c
        (user, event, r, pu, pe, free, size, clear, h, e, b) =
      subst (λ z. IsConsistent env z.committed) (sym e)
        (held_for-IsConsistent ids user event (held_at env o + reservation_hold) r t c clear h)

  pub HoldOutcome-IsConsistent :
      (user_id event_id : Text) (ids : List ℕ) (w : World env)
      (x : Result ReservationResponse × World env)
      → IsSteady w.session
      → HoldOutcome env user_id event_id ids w x
      → IsConsistent env x.1.session.committed
  HoldOutcome-IsConsistent user_id event_id ids w x v (failed e h c) =
      subst (IsConsistent env) (sym c) v.sound
  HoldOutcome-IsConsistent user_id event_id ids w x v (unconfirmed e resp h (lock, w', took, p)) =
      Holds-IsConsistent user_id event_id ids w'.outside w.session.working resp _
        (subst (IsConsistent env) (sym (v.clean)) v.sound) p
  HoldOutcome-IsConsistent user_id event_id ids w x v (confirmed resp h (lock, w', took, p)) =
      Holds-IsConsistent user_id event_id ids w'.outside w.session.working resp _
        (subst (IsConsistent env) (sym (v.clean)) v.sound) p
