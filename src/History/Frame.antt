-- ===== src/History/Frame.antt =====
-- What no request ever changes: users, events, and all of a seat but its status and its holder.
use ticket_booking.Base.{
  ℕ, ◌≡◌, refl, ◌∙◌, ap, Bool, true, false, List, [], ◌∷◌, map, Text, elem, if◌then◌else◌,
}
use ticket_booking.Models.{Seat, Tables}
use ticket_booking.Env.{Env}
use ticket_booking.Action.{World}
use ticket_booking.Repositories.Writes.{hold_seat, clear_seat}
use ticket_booking.Requests.{Request, serve_all}
use ticket_booking.History.Moves.{Move, holds, ends, notes, pays, Reach, start, later}
use ticket_booking.History.Serving.{serve_all-Reach}

-- What a seat is sold by: its key, its event, its place and its price.
abbrev pub place : Seat → ℕ × ℕ × Text × Text × ℕ × ℕ
place s = (s.seat_id, s.event_id, s.section, s.row, s.seat_number, s.price)

abbrev pub KeepsPlaces : Tables → Tables → Type 0
KeepsPlaces t t' =
    (t'.users ≡ t.users) × (t'.events ≡ t.events) × (map place t'.seats ≡ map place t.seats)

place-if :
    (f : Seat → Seat) (b : Bool) (s : Seat)
    → place (f s) ≡ place s
    → place (if b then f s else s) ≡ place s
place-if f true s h = h
place-if f false s h = refl

places-updated :
    (f : Seat → Seat) (ids : List ℕ)
    → ((s : Seat) → place (f s) ≡ place s)
    → (seats : List Seat)
    → map place (map (λ s. if elem s.seat_id ids then f s else s) seats) ≡ map place seats
places-updated f ids h [] = refl
places-updated f ids h (s ∷ seats) =
    ap (λ p. p ∷ map place (map (λ s. if elem s.seat_id ids then f s else s) seats))
      (place-if f (elem s.seat_id ids) s (h s))
    ∙ ap (λ ps. place s ∷ ps) (places-updated f ids h seats)

module _ (env : Env) where
  Move-KeepsPlaces : {t t' : Tables} → Move env t t' → KeepsPlaces t t'
  unfolding hold_seat clear_seat
  Move-KeepsPlaces {t} (holds chosen r n f p e) = (
    ap (λ z. z.users) e,
    ap (λ z. z.events) e,
    ap (λ z. map place z.seats) e ∙ places-updated _ chosen (λ s. refl) t.seats,
  )
  Move-KeepsPlaces {t} (ends st rst ids r w o e) = (
    ap (λ z. z.users) e,
    ap (λ z. z.events) e,
    ap (λ z. map place z.seats) e ∙ places-updated _ ids (λ s. refl) t.seats,
  )
  Move-KeepsPlaces {t} (notes p h e) =
      (ap (λ z. z.users) e, ap (λ z. z.events) e, ap (λ z. map place z.seats) e)
  Move-KeepsPlaces {t} (pays p ids r o k c e) = (
    ap (λ z. z.users) e,
    ap (λ z. z.events) e,
    ap (λ z. map place z.seats) e ∙ places-updated _ ids (λ s. refl) t.seats,
  )

  Reach-KeepsPlaces : {t t' : Tables} → Reach env t t' → KeepsPlaces t t'
  Reach-KeepsPlaces start = (refl, refl, refl)
  Reach-KeepsPlaces (later a m) =
      let (u, e, s) = Reach-KeepsPlaces a in
      let (u', e', s') = Move-KeepsPlaces m in (u' ∙ u, e' ∙ e, s' ∙ s)

  -- No history of requests, each run as one step, changes the users, the events with their
  -- numbers of available seats, or the key, event, place and price of any seat.
  pub serve_all-KeepsPlaces :
      (requests : List Request) (w : World env)
      → KeepsPlaces w.session.committed (serve_all env requests w).session.committed
  serve_all-KeepsPlaces requests w = Reach-KeepsPlaces (serve_all-Reach env requests w)
