-- ===== src/Cleaning/Sizes.antt =====
-- How many seats the release loops count.
use ticket_booking.Base.{
  ℕ, ◌≤◌, ◌≡◌, refl, sym, ◌∙◌, ap, inl, inr, Bool, some, List, [], ◌∷◌, map, filter, elem, count,
  length, length-perm, if◌then◌else◌, arith, Text, Option-cases, ◌==◌,
}
use mathlib.Core.List.{Permᴰ}
use ticket_booking.Models.{Seat, SeatStatus, available, Reservation, ReservationStatus, Tables}
use ticket_booking.Env.{Env}
use ticket_booking.Action.{World}
use ticket_booking.Repositories.Reads.{seats_in}
use ticket_booking.Repositories.Writes.{clear_seat}
use ticket_booking.Reservations.Booking.{or_nil}
use ticket_booking.Reservations.Common.{parse_all, finish}
use ticket_booking.Reservations.Counting.{with_key}
use ticket_booking.Reservations.Effects.{announce-Outside}

length-filter : {A : Type 0} (p : A → Bool) (xs : List A) → length (filter p xs) ≡ count p xs
length-filter p [] = refl
length-filter p (x ∷ xs) = ground (arith, length-filter p xs)

count-perm : {A : Type 0} (p : A → Bool) {xs ys : List A} → Permᴰ xs ys → count p xs ≡ count p ys
count-perm p Permᴰ.nil = refl
count-perm p (Permᴰ.cons e q) = ground (arith, ap p e, count-perm p q)
count-perm p (Permᴰ.swap e f) = ground (arith, ap p e, ap p f)
count-perm p (Permᴰ.trans q r) = count-perm p q ∙ count-perm p r

with_key-filter :
    (k : ℕ) (p : Reservation → Bool) (rs : List Reservation)
    → with_key k (filter p rs) ≤ with_key k rs
with_key-filter k p [] = omega arith
with_key-filter k p (r ∷ rs) = ground (arith, with_key-filter k p rs)

pub with_key-selected :
    (k : ℕ) (p : Reservation → Bool) (rs found : List Reservation)
    → Permᴰ found (filter p rs)
    → with_key k found ≤ with_key k rs
with_key-selected k p rs found q =
    omega (arith, count-perm (λ r. r.reservation_id == k) q, with_key-filter k p rs)

count-cleared :
    (l ids : List ℕ) (seats : List Seat)
    → count
        (λ s. elem s.seat_id l)
        (map (λ s. if elem s.seat_id ids then clear_seat available s else s) seats)
      ≡ count (λ s. elem s.seat_id l) seats
unfolding clear_seat
count-cleared l ids [] = refl
count-cleared l ids (s ∷ seats) = ground (arith, count-cleared l ids seats)

module _ (env : Env) where
  -- How many seats of the tables a reservation lists.
  abbrev pub size : Tables → Reservation → ℕ
  size t r = count (λ s. elem s.seat_id (or_nil (parse_all env r.seat_ids))) t.seats

  pub length-seats_in :
      (r : Reservation) (ids : List ℕ) (t : Tables)
      → parse_all env r.seat_ids ≡ some ids
      → length (seats_in env ids t) ≡ size t r
  unfolding seats_in
  length-seats_in r ids t e =
      length-perm (env.order-perm Seat _)
      ∙ length-filter (λ s. elem s.seat_id ids) t.seats
      ∙ ap (λ o. count (λ s. elem s.seat_id (or_nil o)) t.seats) (sym e)

  pub size-cleared :
      (ids : List ℕ) (t : Tables) (r : Reservation)
      → size
          (record t {
            seats = map (λ s. if elem s.seat_id ids then clear_seat available s else s) t.seats;
          })
          r
        ≡ size t r
  size-cleared ids t r = count-cleared (or_nil (parse_all env r.seat_ids)) ids t.seats

  pub finish-counters :
      (event_id : Text) (r : Reservation) (st : SeatStatus) (rst : ReservationStatus)
      (w : World env)
      → (finish env event_id r st rst w).1.counters ≡ w.counters
  unfolding finish
  finish-counters event_id r st rst w = elim (Option-cases (parse_all env r.seat_ids)) [
    | inl e ↦ rw e refl
    | inr (ids, e) ↦ rw e (announce-Outside env _ _ _ _).1
  ]
