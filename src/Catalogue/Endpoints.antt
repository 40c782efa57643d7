-- ===== src/Catalogue/Endpoints.antt =====
-- apps/core-api/src/api/v1/events.py and seats.py, after the check of the access token.
use ticket_booking.Base.{
  ℕ, not, Option, none, some, [], map, ◌&&◌, ◌==◌, leb, length, Text, codes, if◌then◌else◌,
}
use ticket_booking.Exceptions.{http_exception, value_error}
use ticket_booking.Env.{Env, Command}
use ticket_booking.Action.{Action, ◌>>=◌, ◌>>◌, pure, query, or_raise, raise_if, request}
use ticket_booking.Keys.{cache_seats_key, cache_available_seats_key, seat_cache_ttl}
use ticket_booking.Catalogue.{
  EventResponse, EventListResponse, SeatListResponse, seat_list, to_seat_response, get_events,
  get_event_by_id, available_rows, Json, seat_rows, get_seats_by_event,
}

-- `ApiResponse`
pub record ApiResponse (A : Type 0) : Type 0 where
  pub code : ℕ
  pub message : Text
  pub «data» : Option A

abbrev pub success : {A : Type 0} → A → ApiResponse A
success a = record { code = 200; message = codes "success"; «data» = some a }

abbrev pub success_cached : {A : Type 0} → A → ApiResponse A
success_cached a = record { code = 200; message = codes "success (cached)"; «data» = some a }

module _ (env : Env) where
  -- The bounds of `Query` are checked before the handler runs.
  unfoldable pub list_events : ℕ → ℕ → Action env (ApiResponse EventListResponse)
  list_events page limit = do
    raise_if (not (leb 1 page && (leb 1 limit && leb limit 100))) (http_exception 422)
    events ← query (get_events env page limit)
    pure (success events)

  unfoldable pub get_event : ℕ → Action env (ApiResponse EventResponse)
  get_event event_id = do
    found ← query (get_event_by_id env event_id)
    event ← or_raise found (http_exception 404)
    pure (success event)

  module _ (json : Json) where
    -- `if cached: …`, where an empty text counts as none.
    unfoldable pub from_cache :
        Action env (ApiResponse SeatListResponse)
        → Option Text
        → Action env (ApiResponse SeatListResponse)
    from_cache otherwise none = otherwise
    from_cache otherwise (some cached) = if length cached == 0 then otherwise else (do
      items ← or_raise (json.loads cached) value_error
      pure (success_cached (seat_list items)))

    -- `r.set(cache_key, json.dumps(…), ex=SEAT_CACHE_TTL)`
    unfoldable pub store : Text → SeatListResponse → Action env (ApiResponse SeatListResponse)
    store cache_key seats = do
      request env
          (λ e. (tt, env.command (Command.set cache_key (json.dumps seats.items) seat_cache_ttl) e))
      pure (success seats)

    abbrev pub cached_at : Text → Action env (Option Text)
    cached_at cache_key = request env (λ e. (env.get cache_key e, e))

    -- `cached = r.get(cache_key)`, and what each endpoint does with it.
    unfoldable pub cached_or :
        Text → Action env (ApiResponse SeatListResponse) → Action env (ApiResponse SeatListResponse)
    cached_or cache_key otherwise = cached_at cache_key >>= from_cache otherwise

    abbrev or_empty : Option SeatListResponse → SeatListResponse
    or_empty none = record { items = []; total = 0 }
    or_empty (some seats) = seats

    unfoldable pub load_event_seats : ℕ → Action env (ApiResponse SeatListResponse)
    load_event_seats event_id = do
      event ← query (get_event_by_id env event_id)
      or_raise event (http_exception 404)
      seats ← query (get_seats_by_event env json event_id)
      store (cache_seats_key (env.uuid_str event_id)) (or_empty seats)

    unfoldable pub load_seats : ℕ → Action env (ApiResponse SeatListResponse)
    load_seats event_id = do
      seats ← query (seat_rows env json event_id)
      store (cache_seats_key (env.uuid_str event_id)) (seat_list (map to_seat_response seats))

    unfoldable pub load_available : ℕ → Action env (ApiResponse SeatListResponse)
    load_available event_id = do
      seats ← query (available_rows env event_id)
      store (cache_available_seats_key (env.uuid_str event_id))
          (seat_list (map to_seat_response seats))

    -- `get_event_seats` of events.py
    unfoldable pub get_event_seats : ℕ → Action env (ApiResponse SeatListResponse)
    get_event_seats event_id =
        cached_or (cache_seats_key (env.uuid_str event_id)) (load_event_seats event_id)

    -- `get_seats` of seats.py
    unfoldable pub get_seats : ℕ → Action env (ApiResponse SeatListResponse)
    get_seats event_id = cached_or (cache_seats_key (env.uuid_str event_id)) (load_seats event_id)

    -- `get_available_seats` of seats.py
    unfoldable pub get_available_seats : ℕ → Action env (ApiResponse SeatListResponse)
    get_available_seats event_id =
        cached_or (cache_available_seats_key (env.uuid_str event_id)) (load_available event_id)
