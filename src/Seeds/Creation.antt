-- ===== src/Seeds/Creation.antt =====
-- What the creation of an event has stored when it returns.
use ticket_booking.Base.{
  ℕ, suc, not, Option, ◌≡◌, refl, sym, ◌∙◌, ap, inl, inr, List, [], ◌∷◌, ◌++◌, map, Text, length,
  Bool-cases, Option-cases,
}
use ticket_booking.Exceptions.{Result, ok, err, integrity_error}
use ticket_booking.Models.{Event, Seat, Tables}
use ticket_booking.Env.{Env}
use ticket_booking.Action.{Session, Action, World, ◌>>=◌, ◌>>◌, query, raise_if, change, commit}
use ticket_booking.Action.Rules.{bind_result}
use ticket_booking.Reservations.Effects.{saved}
use ticket_booking.Seeds.{
  SectionData, EventData, replace_z, seats_of_sections, can_add_event, can_add_seats, create_seats,
  create_event,
}
use ticket_booking.Seeds.Grid.{place_of, places, capacity, length-places, At, At-seats_of_sections}

module _ (env : Env) where
  -- The seats that are added, and nothing else.
  abbrev pub Seated : ℕ → List SectionData → Tables → Session → Type 0
  Seated event_id sections t s =
      (seats : List Seat) × (map place_of seats ≡ places event_id sections)
      × (length seats ≡ capacity sections)
      × (s ≡ saved (record t { seats = t.seats ++ seats }))

  length-map : (xs : List Seat) → length (map place_of xs) ≡ length xs
  length-map [] = refl
  length-map (x ∷ xs) = ap suc (length-map xs)

  create_seats-eq-ok :
      (event_id : ℕ) (d : EventData) (sections : List SectionData) (w : World env)
      → (create_seats env event_id d sections w).0 ≡ ok tt
      → Seated event_id sections w.session.working
          (create_seats env event_id d sections w).1.session
  unfolding create_seats
  create_seats-eq-ok event_id d sections w =
      go (seats_of_sections env event_id d sections w)
        (At-seats_of_sections env event_id d sections w)
    where
      store : List Seat → Action env (Unit {0})
      store seats = do
        accepted ← query (can_add_seats env seats)
        raise_if (not accepted) integrity_error
        change (λ t. record t { seats = t.seats ++ seats })
        commit

      go :
          (x : Result (List Seat) × World env)
          → At env (places event_id sections) w x
          → (bind_result store x).0 ≡ ok tt
          → Seated event_id sections w.session.working (bind_result store x).1.session
      go (err e, w') a h = cc
      go (ok seats, w') (same, at) h =
          elim (Bool-cases (can_add_seats env seats w'.session.working)) [
            | inr f ↦ cc (rw f at h)
            | inl f ↦ rw f (
              seats,
              at seats refl,
              sym (length-map seats) ∙ ap length (at seats refl) ∙ length-places event_id sections,
              ap (λ s. saved (record s.working { seats = s.working.seats ++ seats })) same,
            )
          ]

  module _ (fromisoformat : Text → Option ℕ) where
    abbrev pub Creates : EventData → List SectionData → Tables → Session → Type 0
    Creates d sections t s =
        (event : Event) × (event.name ≡ d.name)
        × (event.total_seats ≡ d.total_seats)
        × (event.available_seats ≡ d.total_seats)
        × Seated event.event_id sections (record t { events = t.events ++ (event ∷ []) }) s

    -- A creation of an event that returns has committed the event with its total as the
    -- number of available seats, and one available seat for each number of each row of each
    -- section, so as many as the sections have, and nothing else.
    pub create_event-eq-ok :
        (d : EventData) (sections : List SectionData) (w : World env)
        → (create_event env fromisoformat d sections w).0 ≡ ok tt
        → Creates d sections w.session.working
            (create_event env fromisoformat d sections w).1.session
    unfolding create_event
    create_event-eq-ok d sections w h = elim (Option-cases (fromisoformat (replace_z d.start_at))) [
      | inl a ↦ cc (rw a at h)
      | inr (start, a) ↦ rw a (elim (Option-cases (fromisoformat (replace_z d.end_at))) [
        | inl b ↦ cc (rw (a, b) at h)
        | inr (finish, b) ↦
            rw b (elim (Bool-cases (can_add_event env (event start finish) w.session.working)) [
              | inr c ↦ cc (rw (a, b, c) at h)
              | inl c ↦ rw c (
                event start finish,
                refl,
                refl,
                refl,
                create_seats-eq-ok (env.uuid4 w.outside).0 d sections _ (rw (a, b, c) at h),
              )
            ])
      ])
    ]
      where
        event : ℕ → ℕ → Event
        event start finish = record {
          event_id = (env.uuid4 w.outside).0;
          name = d.name;
          description = d.description;
          location = d.location;
          start_at = start;
          end_at = finish;
          total_seats = d.total_seats;
          available_seats = d.total_seats;
          created_at = (env.utcnow (env.uuid4 w.outside).1).0;
        }
