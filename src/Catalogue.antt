-- ===== src/Catalogue.antt =====
-- What a user looks up: apps/core-api/src/repositories/event_repository.py, seat_repository.py and
-- user_repository.py, services/event_service.py, and the replies of schemas/event_schema.py,
-- seat_schema.py and common.py.
pub mod Endpoints
pub mod Paging
pub mod Stored
pub mod Caching
use ticket_booking.Base.{
  ℕ, ◌≡◌, ◌-◌, ◌*◌, Bool, true, false, Option, none, some, List, [], ◌∷◌, map, ◌&&◌, ◌||◌, ◌==◌,
  not, ltb, leb, length, Text, text_eq, take, drop, sort, if◌then◌else◌,
}
use ticket_booking.Models.{User, Event, Seat, SeatStatus, is_available, Tables}
use ticket_booking.Env.{Env}
use ticket_booking.Action.{Action, ◌>>=◌, ◌>>◌, pure, query, change, commit}
use ticket_booking.Repositories.Reads.{select, select_first}
use ticket_booking.Repositories.Writes.{update_seat}

pub record EventResponse : Type 0 where
  pub event_id : ℕ
  pub name : Text
  pub description : Option Text
  pub location : Text
  pub start_at : ℕ
  pub end_at : ℕ
  pub total_seats : ℕ
  pub available_seats : ℕ

pub record EventListResponse : Type 0 where
  pub items : List EventResponse
  pub total : ℕ
  pub page : ℕ
  pub limit : ℕ

pub record SeatResponse : Type 0 where
  pub seat_id : ℕ
  pub event_id : ℕ
  pub section : Text
  pub row : Text
  pub seat_number : ℕ
  pub status : SeatStatus
  pub price : ℕ

pub record SeatListResponse : Type 0 where
  pub items : List SeatResponse
  pub total : ℕ

-- `EventResponse.from_orm`
unfoldable pub to_event_response : Event → EventResponse
to_event_response e = record {
  event_id = e.event_id;
  name = e.name;
  description = e.description;
  location = e.location;
  start_at = e.start_at;
  end_at = e.end_at;
  total_seats = e.total_seats;
  available_seats = e.available_seats;
}

-- `SeatResponse.from_orm`
unfoldable pub to_seat_response : Seat → SeatResponse
to_seat_response s = record {
  seat_id = s.seat_id;
  event_id = s.event_id;
  section = s.section;
  row = s.row;
  seat_number = s.seat_number;
  status = s.status;
  price = s.price;
}

-- `SeatListResponse(items=items, total=len(items))`
unfoldable pub seat_list : List SeatResponse → SeatListResponse
seat_list items = record { items = items; total = length items }

-- `desc(Event.start_at)`
abbrev pub newest_first : Event → Event → Bool
newest_first a b = leb b.start_at a.start_at

module _ (env : Env) where
  -- The rows of an ORDER BY, where the engine orders the rows that the keys leave open.
  abbrev pub select_by : {A : Type 0} → (A → A → Bool) → (A → Bool) → List A → List A
  select_by le p rows = sort le (select env p rows)

  -- `EventRepository.get_all`
  unfoldable pub get_all : ℕ → ℕ → Tables → List Event × ℕ
  get_all page limit t =
      let rows = select_by newest_first (λ e. true) t.events in
      (take limit (drop ((page - 1) * limit) rows), length rows)

  -- `EventRepository.get_by_id`
  unfoldable pub get_event_row : ℕ → Tables → Option Event
  get_event_row event_id t = select_first env (λ e. e.event_id == event_id) t.events

  -- `EventService.get_events`
  unfoldable pub get_events : ℕ → ℕ → Tables → EventListResponse
  get_events page limit t =
      let (events, total) = get_all page limit t in
      record { items = map to_event_response events; total = total; page = page; limit = limit }

  abbrev pub event_reply : Option Event → Option EventResponse
  event_reply none = none
  event_reply (some event) = some (to_event_response event)

  -- `EventService.get_event_by_id`
  unfoldable pub get_event_by_id : ℕ → Tables → Option EventResponse
  get_event_by_id event_id t = event_reply (get_event_row event_id t)

  -- `SeatRepository.get_by_id`
  unfoldable pub get_seat_row : ℕ → Tables → Option Seat
  get_seat_row seat_id t = select_first env (λ s. s.seat_id == seat_id) t.seats

  -- `SeatRepository.get_available_seats`
  unfoldable pub available_rows : ℕ → Tables → List Seat
  available_rows event_id t =
      select env (λ s. (s.event_id == event_id) && is_available s.status) t.seats

  update_row : SeatStatus → Option Seat → Action env (Option Seat)
  update_row status none = pure none
  update_row status (some seat) = do
    change (λ t. record t {
      seats = update_seat (λ s. record s { status = status }) seat.seat_id t.seats;
    })
    commit
    pure (some (record seat { status = status }))

  -- `SeatRepository.update_seat_status`
  unfoldable pub update_seat_status : ℕ → SeatStatus → Action env (Option Seat)
  unfolding update_row
  update_seat_status seat_id status = do seat ← query (get_seat_row seat_id); update_row status seat

  -- `UserRepository.get_by_email` and `get_by_id`
  unfoldable pub get_user_by_email : Text → Tables → Option User
  get_user_by_email email t = select_first env (λ u. text_eq u.email email) t.users

  unfoldable pub get_user_by_id : ℕ → Tables → Option User
  get_user_by_id user_id t = select_first env (λ u. u.user_id == user_id) t.users

-- What the seat queries take from outside: the engine's order of texts, and JSON with its check by
-- the schema, where `none` is a ValueError. What was dumped is loaded as it was.
pub record Json : Type 1 where
  pub text_leb : Text → Text → Bool
  pub dumps : List SeatResponse → Text
  pub loads : Text → Option (List SeatResponse)
  pub loads-dumps : (items : List SeatResponse) → loads (dumps items) ≡ some items
  pub dumps_filled : (items : List SeatResponse) → (length (dumps items) == 0) ≡ false

module _ (env : Env) (json : Json) where
  -- `order_by(Seat.section, Seat.row, Seat.seat_number)`
  unfoldable pub by_place : Seat → Seat → Bool
  by_place a b =
      if not (json.text_leb b.section a.section)
      then true
      else (json.text_leb a.section b.section
          && (not (json.text_leb b.row a.row)
              || (json.text_leb a.row b.row && leb a.seat_number b.seat_number)))

  -- `SeatRepository.get_by_event_id`
  unfoldable pub seat_rows : ℕ → Tables → List Seat
  seat_rows event_id t = select_by env by_place (λ s. s.event_id == event_id) t.seats

  abbrev seats_reply : List Seat → Option Event → Option SeatListResponse
  seats_reply seats none = none
  seats_reply seats (some event) = some (seat_list (map to_seat_response seats))

  -- `EventService.get_seats_by_event`
  unfoldable pub get_seats_by_event : ℕ → Tables → Option SeatListResponse
  get_seats_by_event event_id t = seats_reply (seat_rows event_id t) (get_event_row env event_id t)
