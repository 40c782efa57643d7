-- ===== src/Catalogue/Caching.antt =====
-- The cache of the seat lists, which two endpoints share and a seat update clears.
use ticket_booking.Base.{
  ℕ, ◌≡◌, refl, ◌∙◌, ap, false, none, some, List, [], ◌∷◌, map, Text, ◌==◌, any, head?, sort,
}
use ticket_booking.Exceptions.{ok, err, http_exception}
use ticket_booking.Models.{Seat, SeatStatus, Tables}
use ticket_booking.Env.{Env, Command, SeatUpdate}
use ticket_booking.Action.{Session, World, run_commands}
use ticket_booking.Keys.{cache_seats_key, cache_available_seats_key}
use ticket_booking.Reservations.Common.{publish_seat_update}
use ticket_booking.Repositories.Reads.{select-none}
use ticket_booking.Reservations.Effects.{publish-Outside}
use ticket_booking.Catalogue.{
  SeatResponse, SeatListResponse, seat_list, to_seat_response, get_event_row, event_reply,
  get_event_by_id, available_rows, Json, by_place, seat_rows,
}
use ticket_booking.Catalogue.Endpoints.{
  success, success_cached, load_event_seats, load_seats, load_available, get_event_seats, get_seats,
  get_available_seats,
}
use ticket_booking.Catalogue.Stored.{CacheLaws, reached, read-miss, read-hit, stored, store-eq}

module _ (env : Env) (json : Json) (laws : CacheLaws env) where
  module _ (event_id : ℕ) where
    abbrev pub seats_key : Text
    seats_key = cache_seats_key (env.uuid_str event_id)

    -- The seats of the event as they are in the tables.
    abbrev pub current : Tables → SeatListResponse
    current t = seat_list (map to_seat_response (seat_rows env json event_id t))

    abbrev pub current_available : Tables → SeatListResponse
    current_available t = seat_list (map to_seat_response (available_rows env event_id t))

    get_seats-miss :
        (w : World env)
        → env.get seats_key w.outside ≡ none
        → get_seats env json event_id w ≡ (
          ok (success (current w.session.working)),
          stored env json laws seats_key (current w.session.working) (reached env json laws w),
        )
    unfolding get_seats load_seats reached
    get_seats-miss w h =
        read-miss env json laws seats_key (load_seats env json event_id) w h
        ∙ store-eq env json laws _ _ _

    get_available_seats-miss :
        (w : World env)
        → env.get (cache_available_seats_key (env.uuid_str event_id)) w.outside ≡ none
        → (get_available_seats env json event_id w).0
          ≡ ok (success (current_available w.session.working))
    unfolding get_available_seats load_available reached
    get_available_seats-miss w h =
        ap (λ x. x.0)
          (read-miss env json laws _ (load_available env json event_id) w h
            ∙ store-eq env json laws _ _ _)

    stored-get :
        (items : List SeatResponse) (w : World env)
        → env.get seats_key (stored env json laws seats_key (seat_list items) w).outside
          ≡ some (json.dumps items)
    unfolding stored seat_list
    stored-get items w = laws.get-set _ _ _ _

    -- While Redis is up, no other client writes to it and no key expires, a listing of
    -- seats that found nothing in the cache replies what the tables have, and the listings
    -- of both endpoints that follow repeat it, whatever the tables have become.
    pub get_seats_again :
        (w : World env) (s : Session)
        → env.get (cache_seats_key (env.uuid_str event_id)) w.outside ≡ none
        → let x = get_seats env json event_id w in
          let later = record x.1 { session = s } in
          (x.0 ≡ ok (success (current w.session.working)))
          × ((get_seats env json event_id later).0
              ≡ ok (success_cached (current w.session.working)))
          × ((get_event_seats env json event_id later).0
              ≡ ok (success_cached (current w.session.working)))
    unfolding get_seats get_event_seats
    get_seats_again w s h = (
      ap (λ x. x.0) (get_seats-miss w h),
      read-hit env json laws seats_key (load_seats env json event_id) (later w s) items
          (kept w s h),
      read-hit env json laws seats_key (load_event_seats env json event_id) (later w s) items
          (kept w s h),
    )
      where
        items : List SeatResponse
        items = map to_seat_response (seat_rows env json event_id w.session.working)

        later : World env → Session → World env
        later w s = record (get_seats env json event_id w).1 { session = s }

        kept :
            (w : World env) (s : Session)
            → env.get seats_key w.outside ≡ none
            → env.get seats_key (later w s).outside
              ≡ some (
                  json.dumps (map to_seat_response (seat_rows env json event_id w.session.working)))
        kept w s h = ap (λ x. env.get seats_key x.1.outside) (get_seats-miss w h) ∙ stored-get _ _

    -- What the three commands of a seat update leave.
    cleared :
        (u : SeatUpdate) (c : Text) (e : env.E)
        → let e' =
            run_commands env
              (Command.delete seats_key
                ∷ Command.delete (cache_available_seats_key (env.uuid_str event_id))
                ∷ Command.publish c u
                ∷ [])
              e in
          (env.get seats_key e' ≡ none)
          × (env.get (cache_available_seats_key (env.uuid_str event_id)) e' ≡ none)
    cleared u c e = (
      laws.get-publish _ _ _ _ ∙ laws.delete_again _ _ _ (laws.get-delete _ _),
      laws.get-publish _ _ _ _ ∙ laws.get-delete _ _,
    )

    publish-cleared :
        (seats : List Seat) (st : SeatStatus) (w : World env)
        → let w' = (publish_seat_update env (env.uuid_str event_id) seats st w).1 in
          (env.get seats_key w'.outside ≡ none)
          × (env.get (cache_available_seats_key (env.uuid_str event_id)) w'.outside ≡ none)
    unfolding publish_seat_update
    publish-cleared seats st w = rw (laws.up (env.utcnow w.outside).1) (cleared _ _ _)

    -- While Redis is up and no other client writes to it, both seat listings that follow a
    -- seat update of the event reply what the tables have, not what the caches had before.
    pub publish-fresh :
        (seats : List Seat) (st : SeatStatus) (w : World env)
        → let w' = (publish_seat_update env (env.uuid_str event_id) seats st w).1 in
          ((get_seats env json event_id w').0 ≡ ok (success (current w.session.working)))
          × ((get_available_seats env json event_id w').0
              ≡ ok (success (current_available w.session.working)))
    publish-fresh seats st w =
        let w' = (publish_seat_update env (env.uuid_str event_id) seats st w).1 in
        let (none_all, none_available) = publish-cleared seats st w in
        let same = (publish-Outside env (env.uuid_str event_id) seats st w).0 in
        (
          ap (λ x. x.0) (get_seats-miss w' none_all)
              ∙ ap (λ s. ok (success (current s.working))) same,
          get_available_seats-miss w' none_available
              ∙ ap (λ s. ok (success (current_available s.working))) same,
        )

    get_event_by_id_unknown :
        (t : Tables)
        → any (λ e. e.event_id == event_id) t.events ≡ false
        → get_event_by_id env event_id t ≡ none
    unfolding get_event_by_id get_event_row
    get_event_by_id_unknown t h =
        ap (λ rows. event_reply env (head? rows))
          (select-none env (λ e. e.event_id == event_id) t.events h)

    -- For an event that has neither a row nor seats nor a cached list, get_event_seats
    -- answers 404; after a call of get_seats for it, it answers 200 with an empty list.
    pub get_event_seats_unknown :
        (w : World env)
        → any (λ e. e.event_id == event_id) w.session.working.events ≡ false
        → any (λ s. s.event_id == event_id) w.session.working.seats ≡ false
        → env.get (cache_seats_key (env.uuid_str event_id)) w.outside ≡ none
        → ((get_event_seats env json event_id w).0 ≡ err (http_exception 404))
          × ((get_event_seats env json event_id (get_seats env json event_id w).1).0
              ≡ ok (success_cached (seat_list [])))
    unfolding get_event_seats load_event_seats seat_rows reached
    get_event_seats_unknown w no_event no_seats h = (
      ap (λ x. x.0) (read-miss env json laws seats_key (load_event_seats env json event_id) w h)
          ∙ rw (get_event_by_id_unknown w.session.working no_event) refl,
      (get_seats_again w (get_seats env json event_id w).1.session h).2
          ∙ ap
              (λ rows.
                ok (
                  success_cached
                    (seat_list (map to_seat_response (sort (by_place env json) rows)))))
              (select-none env (λ s. s.event_id == event_id) w.session.working.seats no_seats),
    )
