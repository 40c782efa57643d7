-- ===== src/Repositories/SeatUpdates.antt =====
-- What the loops over seats do to the table of seats.
use ticket_booking.Base.{
  ℕ, ◌≡◌, refl, sym, ◌∙◌, ap, Bool, List, [], ◌∷◌, map, elem, filter, any, ◌==◌, ◌&&◌,
  if◌then◌else◌, arith, any-perm, any-map,
}
use ticket_booking.Models.{Seat}
use ticket_booking.Env.{Env}
use ticket_booking.Repositories.Reads.{select}
use ticket_booking.Repositories.Writes.{update_seats}

abbrev pub keys : List Seat → List ℕ
keys seats = map (λ s. s.seat_id) seats

-- The row as an update of the seats `ids` by `f` leaves it.
abbrev pub updated : (Seat → Seat) → List ℕ → Seat → Seat
updated f ids s = if elem s.seat_id ids then f s else s

-- An assignment of attributes, which keeps the primary key and has its effect once.
pub record IsAssignment (f : Seat → Seat) : Type 0 where
  pub same_key : (s : Seat) → (f s).seat_id ≡ s.seat_id
  pub once : (s : Seat) → f (f s) ≡ f s

map-map : (f g : Seat → Seat) (rows : List Seat) → map g (map f rows) ≡ map (λ s. g (f s)) rows
map-map f g [] = refl
map-map f g (s ∷ rows) = rw (map-map f g rows)

map-id : (rows : List Seat) → map (λ s. s) rows ≡ rows
map-id [] = refl
map-id (s ∷ rows) = rw (map-id rows)

module _ (f : Seat → Seat) (a : IsAssignment f) where
  updated-cons :
      (k : ℕ) (ids : List ℕ) (s : Seat)
      → updated f ids (if s.seat_id == k then f s else s) ≡ updated f (k ∷ ids) s
  updated-cons k ids s = ground (arith, a.same_key s, a.once s)

  -- The loop over seats, for an assignment of attributes that keeps the primary key and has
  -- its effect once, gives every row whose key is listed its update exactly once and changes
  -- no other row.
  pub update_seats-eq-map :
      (ids : List ℕ) (rows : List Seat) → update_seats f ids rows ≡ map (updated f ids) rows
  unfolding update_seats
  update_seats-eq-map [] rows = sym (map-id rows)
  update_seats-eq-map (k ∷ ids) rows =
      update_seats-eq-map ids _
      ∙ map-map _ _ rows
      ∙ ap (λ g. map g rows) (λ i s. updated-cons k ids s i)

-- The keys of the rows that a query returns, in whatever order.
module _ (env : Env) where
  pub elem-keys-select :
      (k : ℕ) (p : Seat → Bool) (rows : List Seat)
      → elem k (keys (select env p rows)) ≡ any (λ s. (s.seat_id == k) && p s) rows
  elem-keys-select k p rows =
      any-map (λ s. s.seat_id) (λ j. j == k) (select env p rows)
      ∙ any-perm (λ s. s.seat_id == k) (env.order-perm Seat (filter p rows))
      ∙ go rows
    where
      go :
          (xs : List Seat)
          → any (λ s. s.seat_id == k) (filter p xs) ≡ any (λ s. (s.seat_id == k) && p s) xs
      go [] = refl
      go (x ∷ xs) = ground (arith, go xs)
