-- ===== src/Seeds/Grid.antt =====
-- The seats of a seeded event: one for each section, row and number.
use ticket_booking.Base.{
  ℕ, zero, suc, ◌+◌, ◌*◌, ◌≡◌, refl, ◌∙◌, ap, none, List, [], ◌∷◌, ◌++◌, map, Text, length,
  length-append, arith, Option-cases, inl, inr,
}
use ticket_booking.Exceptions.{Result, ok, err}
use ticket_booking.Models.{Seat, SeatStatus, available}
use ticket_booking.Env.{Env}
use ticket_booking.Action.{Action, World, ◌>>=◌, pure}
use ticket_booking.Action.Rules.{bind_result}
use ticket_booking.Seeds.Formats.{decimal, zero_fill, value, value-decimal, value-zero_fill}
use ticket_booking.Seeds.{
  SectionData, EventData, range_from, seats_of_row, seats_of_rows, seats_of_sections,
}

-- Where a seat is, with its row as a number, and its status.
abbrev pub Place : Type 0
Place = ℕ × Text × ℕ × ℕ × SeatStatus

abbrev pub place_of : Seat → Place
place_of s = (s.event_id, s.section, value s.row, s.seat_number, s.status)

-- The places of an event: row by row, all of them available.
abbrev pub row_places : ℕ → Text → ℕ → List ℕ → List Place
row_places event section row [] = []
row_places event section row (i ∷ seats) =
    (event, section, row, i, available) ∷ row_places event section row seats

abbrev pub rows_places : ℕ → Text → ℕ → List ℕ → List Place
rows_places event section per_row [] = []
rows_places event section per_row (r ∷ rows) =
    row_places event section r (range_from 1 per_row) ++ rows_places event section per_row rows

abbrev pub places : ℕ → List SectionData → List Place
places event [] = []
places event (x ∷ sections) =
    rows_places event x.section_code x.seats_per_row (range_from 1 x.row_count)
    ++ places event sections

-- The number of seats in all sections.
abbrev pub capacity : List SectionData → ℕ
capacity [] = 0
capacity (x ∷ sections) = x.row_count * x.seats_per_row + capacity sections

map-append : (xs ys : List Seat) → map place_of (xs ++ ys) ≡ map place_of xs ++ map place_of ys
map-append [] ys = refl
map-append (x ∷ xs) ys = ap (λ zs. place_of x ∷ zs) (map-append xs ys)

length-range_from : (k n : ℕ) → length (range_from k n) ≡ n
unfolding range_from
length-range_from k zero = refl
length-range_from k (suc n) = ap suc (length-range_from (suc k) n)

length-row_places :
    (event : ℕ) (section : Text) (row : ℕ) (seats : List ℕ)
    → length (row_places event section row seats) ≡ length seats
length-row_places event section row [] = refl
length-row_places event section row (i ∷ seats) = ap suc (length-row_places event section row seats)

length-rows_places :
    (event : ℕ) (section : Text) (per_row : ℕ) (rows : List ℕ)
    → length (rows_places event section per_row rows) ≡ length rows * per_row
length-rows_places event section per_row [] = omega arith
length-rows_places event section per_row (r ∷ rows) =
    length-append (row_places event section r (range_from 1 per_row)) _
    ∙ omega (
      arith,
      length-row_places event section r (range_from 1 per_row),
      length-range_from 1 per_row,
      length-rows_places event section per_row rows,
    )

pub length-places :
    (event : ℕ) (sections : List SectionData) → length (places event sections) ≡ capacity sections
length-places event [] = refl
length-places event (x ∷ sections) =
    length-append (rows_places event x.section_code x.seats_per_row (range_from 1 x.row_count)) _
    ∙ omega (
      arith,
      length-rows_places event x.section_code x.seats_per_row (range_from 1 x.row_count),
      ap (λ n. n * x.seats_per_row) (length-range_from 1 x.row_count),
      length-places event sections,
    )

module _ (env : Env) where
  -- The session is as it was, and the seats, if there are any, are at these places.
  abbrev pub At : List Place → World env → Result (List Seat) × World env → Type 0
  At ps w x =
      (x.1.session ≡ w.session) × ((seats : List Seat) → x.0 ≡ ok seats → map place_of seats ≡ ps)

  both : Action env (List Seat) → Action env (List Seat) → Action env (List Seat)
  both m n = do seats ← m; others ← n; pure (seats ++ others)

  At-both :
      (ps qs : List Place) (m n : Action env (List Seat)) (w : World env)
      → At ps w (m w)
      → ((w' : World env) → At qs w' (n w'))
      → At (ps ++ qs) w (both m n w)
  unfolding both
  At-both ps qs m n w a b = go (m w) a
    where
      add : List Seat → Action env (List Seat)
      add seats = n >>= λ others. pure (seats ++ others)

      then_add :
          (seats : List Seat) (y : Result (List Seat) × World env) (w' : World env)
          → map place_of seats ≡ ps
          → w'.session ≡ w.session
          → At qs w' y
          → At (ps ++ qs) w (bind_result (λ others. pure (seats ++ others)) y)
      then_add seats (ok others, w'') w' h s (e, f) = (
        e ∙ s,
        λ all h'.
            ap (map place_of) {x = all} {y = seats ++ others} (cc)
            ∙ map-append seats others
            ∙ ap (λ z. z ++ map place_of others) h
            ∙ ap (λ z. ps ++ z) (f others refl),
      )
      then_add seats (err x, w'') w' h s (e, f) = (e ∙ s, λ all h'. cc)

      go : (x : Result (List Seat) × World env) → At ps w x → At (ps ++ qs) w (bind_result add x)
      go (ok seats, w') (e, f) = then_add seats (n w') w' (f seats refl) e (b w')
      go (err x, w') (e, f) = (e, λ all h. cc)

  new_seat : ℕ → Text → ℕ → ℕ → ℕ → ℕ → Seat
  new_seat event section price row i seat_id = record {
    seat_id = seat_id;
    event_id = event;
    section = section;
    row = zero_fill 2 (decimal row);
    seat_number = i;
    status = available;
    price = price;
    held_by = none;
    held_until = none;
  }

  At-seats_of_row :
      (event : ℕ) (section : Text) (price row : ℕ) (seats : List ℕ) (w : World env)
      → At (row_places event section row seats) w (seats_of_row env event section price row seats w)
  unfolding seats_of_row new_seat
  At-seats_of_row event section price row [] w =
      (refl, λ seats h. ap (map place_of) {x = seats} {y = []} cc)
  At-seats_of_row event section price row (i ∷ seats) w =
      go (env.uuid4 w.outside).0 (seats_of_row env event section price row seats w1)
        (At-seats_of_row event section price row seats w1)
    where
      w1 : World env
      w1 = record w { outside = (env.uuid4 w.outside).1 }

      go :
          (k : ℕ) (x : Result (List Seat) × World env)
          → At (row_places event section row seats) w1 x
          → At (row_places event section row (i ∷ seats)) w (
              bind_result {env = env}
                (λ others. pure (new_seat event section price row i k ∷ others))
                x)
      go k (ok others, w') (e, f) = (
        e,
        λ all h.
            ap (map place_of) {x = all} {y = new_seat event section price row i k ∷ others} (cc)
            ∙ ap (λ r. (event, section, r, i, available) ∷ map place_of others)
                (value-zero_fill 2 (decimal row) ∙ value-decimal row)
            ∙ ap (λ ps. (event, section, row, i, available) ∷ ps) (f others refl),
      )
      go k (err x, w') (e, f) = (e, λ all h. cc)

  At-seats_of_rows :
      (event : ℕ) (section : Text) (price per_row : ℕ) (rows : List ℕ) (w : World env)
      → At
          (rows_places event section per_row rows)
          w
          (seats_of_rows env event section price per_row rows w)
  unfolding seats_of_rows both
  At-seats_of_rows event section price per_row [] w =
      (refl, λ seats h. ap (map place_of) {x = seats} {y = []} cc)
  At-seats_of_rows event section price per_row (r ∷ rows) w =
      At-both _ _ (seats_of_row env event section price r (range_from 1 per_row))
        (seats_of_rows env event section price per_row rows) w
        (At-seats_of_row event section price r (range_from 1 per_row) w)
        (At-seats_of_rows event section price per_row rows)

  -- The seats of all sections, if every section has a price.
  pub At-seats_of_sections :
      (event : ℕ) (d : EventData) (sections : List SectionData) (w : World env)
      → At (places event sections) w (seats_of_sections env event d sections w)
  unfolding seats_of_sections both
  At-seats_of_sections event d [] w = (refl, λ seats h. ap (map place_of) {x = seats} {y = []} cc)
  At-seats_of_sections event d (x ∷ sections) w =
      elim (Option-cases (d.price_per_section x.section_code)) [
        | inl e ↦ rw e (refl, λ seats h. cc)
        | inr (price, e) ↦ rw e (
            At-both _ _
              (seats_of_rows env event x.section_code price x.seats_per_row
                (range_from 1 x.row_count))
              (seats_of_sections env event d sections) w
              (At-seats_of_rows event x.section_code price x.seats_per_row
                (range_from 1 x.row_count) w)
              (At-seats_of_sections event d sections))
      ]
