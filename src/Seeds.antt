-- ===== src/Seeds.antt =====
-- apps/core-api/src/database/seed.py: the events, seats and users that a new installation starts with.
-- The files events.json and sections.json are arguments. The session does not flush before a query,
-- so what is added to it is kept aside until the commit.
pub mod Formats
pub mod Grid
pub mod Creation
pub mod Found
pub mod Names
pub mod Members
pub mod Rerun
use ticket_booking.Base.{
  ℕ, zero, suc, ◌+◌, Bool, true, false, not, Option, none, some, List, [], ◌∷◌, ◌++◌, map, any,
  ◌&&◌, ◌||◌, ◌==◌, Text, text_eq, codes, if◌then◌else◌,
}
use ticket_booking.Exceptions.{ok, err, value_error, key_error, integrity_error}
use ticket_booking.Models.{User, Event, Seat, available, Tables}
use ticket_booking.Env.{Env}
use ticket_booking.Action.{
  Action, ◌>>=◌, ◌>>◌, pure, or_raise, query, external, raise_if, change, commit, rollback,
}
use ticket_booking.Repositories.Reads.{select_first}
use Formats.{decimal, zero_fill, hexadecimal}

-- An item of sections.json and one of events.json, with its prices in cents.
pub record SectionData : Type 0 where
  pub section_code : Text
  pub row_count : ℕ
  pub seats_per_row : ℕ

pub record EventData : Type 0 where
  pub name : Text
  pub description : Option Text
  pub location : Text
  pub start_at : Text
  pub end_at : Text
  pub total_seats : ℕ
  pub price_per_section : Text → Option ℕ

-- An item of `test_users`.
pub record UserData : Type 0 where
  pub user_id : Option Text
  pub email : Text
  pub name : Text
  pub phone : Text

-- `range(k, k + n)`
unfoldable pub range_from : ℕ → ℕ → List ℕ
range_from k zero = []
range_from k (suc n) = k ∷ range_from (suc k) n

-- `s.replace("Z", "+00:00")`
unfoldable pub replace_z : Text → Text
replace_z [] = []
replace_z (c ∷ s) = if c == 90 then codes "+00:00" ++ replace_z s else c ∷ replace_z s

-- The users of the k6 scenario, of the tests, and of the front end in development.
unfoldable pub dev_user : UserData
dev_user = record {
  user_id = some (codes "00000000-0000-0000-0000-000000000001");
  email = codes "devuser@test.com";
  name = codes "Dev User";
  phone = codes "010-0000-0001";
}

unfoldable pub test_user : ℕ → UserData
test_user i = record {
  user_id = none;
  email = codes "user" ++ (decimal i ++ codes "@test.com");
  name = codes "Test User " ++ decimal i;
  phone = codes "010-1234-" ++ zero_fill 4 (decimal i);
}

unfoldable pub k6_user : ℕ → UserData
k6_user i = record {
  user_id = some (codes "10000000-0000-0000-0000-" ++ zero_fill 12 (hexadecimal i));
  email = codes "k6user" ++ (decimal i ++ codes "@test.com");
  name = codes "K6 Test User " ++ decimal i;
  phone = codes "010-9000-" ++ zero_fill 4 (decimal i);
}

unfoldable pub test_users : List UserData
test_users = (dev_user ∷ []) ++ (map test_user (range_from 1 10) ++ map k6_user (range_from 1 200))

module _ (env : Env) where
  -- The seats of one row, of some rows and of all sections, each with a new key.
  unfoldable pub seats_of_row : ℕ → Text → ℕ → ℕ → List ℕ → Action env (List Seat)
  seats_of_row event_id section price row_idx [] = pure []
  seats_of_row event_id section price row_idx (seat_idx ∷ seats) = do
    seat_id ← external env env.uuid4
    others ← seats_of_row event_id section price row_idx seats
    let seat =
        let s : Seat = record {
          seat_id = seat_id;
          event_id = event_id;
          section = section;
          row = zero_fill 2 (decimal row_idx);
          seat_number = seat_idx;
          status = available;
          price = price;
          held_by = none;
          held_until = none;
        } in
        s
    pure (seat ∷ others)

  unfoldable pub seats_of_rows : ℕ → Text → ℕ → ℕ → List ℕ → Action env (List Seat)
  seats_of_rows event_id section price seats_per_row [] = pure []
  seats_of_rows event_id section price seats_per_row (row_idx ∷ rows) = do
    seats ← seats_of_row event_id section price row_idx (range_from 1 seats_per_row)
    others ← seats_of_rows event_id section price seats_per_row rows
    pure (seats ++ others)

  unfoldable pub seats_of_sections : ℕ → EventData → List SectionData → Action env (List Seat)
  seats_of_sections event_id event_data [] = pure []
  seats_of_sections event_id event_data (section_data ∷ sections) = do
    price ← or_raise (event_data.price_per_section section_data.section_code) key_error
    seats ←
        seats_of_rows event_id section_data.section_code price section_data.seats_per_row
          (range_from 1 section_data.row_count)
    others ← seats_of_sections event_id event_data sections
    pure (seats ++ others)

  -- The constraints of the tables that a commit with new rows is checked by.
  unfoldable pub can_add_event : Event → Tables → Bool
  can_add_event event t = not (any (λ e. e.event_id == event.event_id) t.events)

  unfoldable pub same_place : Seat → Seat → Bool
  same_place s z =
      (s.seat_id == z.seat_id)
      || ((s.event_id == z.event_id)
          && (text_eq s.section z.section
              && (text_eq s.row z.row && (s.seat_number == z.seat_number))))

  unfoldable pub can_add_seats : List Seat → Tables → Bool
  can_add_seats [] t = true
  can_add_seats (s ∷ seats) t =
      not (any (same_place s) seats)
      && (not (any (same_place s) t.seats)
          && (any (λ e. e.event_id == s.event_id) t.events && can_add_seats seats t))

  unfoldable pub can_add_users : List User → Tables → Bool
  can_add_users [] t = true
  can_add_users (u ∷ users) t =
      not (any (λ v. (v.user_id == u.user_id) || text_eq v.email u.email) users)
      && (not (any (λ v. (v.user_id == u.user_id) || text_eq v.email u.email) t.users)
          && can_add_users users t)

  -- The seats of a new event.
  unfoldable pub create_seats : ℕ → EventData → List SectionData → Action env (Unit {0})
  create_seats event_id event_data sections_data = do
    seats ← seats_of_sections event_id event_data sections_data
    accepted ← query (can_add_seats seats)
    raise_if (not accepted) integrity_error
    change (λ t. record t { seats = t.seats ++ seats })
    commit

  unfoldable pub unless_found :
      {A : Type 0} → Option A → Action env (Unit {0}) → Action env (Unit {0})
  unless_found none m = m
  unless_found (some a) m = pure tt

  -- `uuid.UUID(user_data["user_id"]) if "user_id" in user_data else uuid.uuid4()`
  unfoldable pub user_key : Option Text → Action env ℕ
  user_key none = external env env.uuid4
  user_key (some s) = or_raise (env.uuid_parse s) value_error

  unfoldable pub new_user : UserData → Action env (List User)
  new_user user_data = do
    user_id ← user_key user_data.user_id
    created_at ← external env env.utcnow
    pure (
        (let u : User = record {
          user_id = user_id;
          email = user_data.email;
          hashed_password = codes "$2b$12$dummy_hashed_password";
          name = user_data.name;
          phone = some user_data.phone;
          created_at = created_at;
        } in
          u)
        ∷ [])

  -- The user, if no row has its email.
  unfoldable pub user_if_new : UserData → Option User → Action env (List User)
  unfolding new_user
  user_if_new user_data none = new_user user_data
  user_if_new user_data (some existing) = pure []

  unfoldable pub new_users : List UserData → Action env (List User)
  new_users [] = pure []
  new_users (user_data ∷ users_data) = do
    existing ← query (λ t. select_first env (λ u. text_eq u.email user_data.email) t.users)
    users ← user_if_new user_data existing
    others ← new_users users_data
    pure (users ++ others)

  unfoldable pub create_users : List UserData → Action env (Unit {0})
  create_users users_data = do
    users ← new_users users_data
    accepted ← query (can_add_users users)
    raise_if (not accepted) integrity_error
    change (λ t. record t { users = t.users ++ users })
    commit

  module _ (fromisoformat : Text → Option ℕ) where
    -- The event is committed, then its seats.
    unfoldable pub create_event : EventData → List SectionData → Action env (Unit {0})
    create_event event_data sections_data = do
      event_id ← external env env.uuid4
      start_at ← or_raise (fromisoformat (replace_z event_data.start_at)) value_error
      end_at ← or_raise (fromisoformat (replace_z event_data.end_at)) value_error
      created_at ← external env env.utcnow
      let event =
          let e : Event = record {
            event_id = event_id;
            name = event_data.name;
            description = event_data.description;
            location = event_data.location;
            start_at = start_at;
            end_at = end_at;
            total_seats = event_data.total_seats;
            available_seats = event_data.total_seats;
            created_at = created_at;
          } in
          e
      accepted ← query (can_add_event event)
      raise_if (not accepted) integrity_error
      change (λ t. record t { events = t.events ++ (event ∷ []) })
      commit
      create_seats event_id event_data sections_data

    unfoldable pub create_events : List EventData → List SectionData → Action env (Unit {0})
    unfolding unless_found
    create_events [] sections_data = pure tt
    create_events (event_data ∷ events_data) sections_data = do
      existing ← query (λ t. select_first env (λ e. text_eq e.name event_data.name) t.events)
      unless_found existing (create_event event_data sections_data)
      create_events events_data sections_data

    -- The body of the `try` statement.
    unfoldable pub load_data : List EventData → List SectionData → Action env (Unit {0})
    load_data events_data sections_data =
        create_events events_data sections_data >> create_users test_users

    -- `load_seed_data`
    unfoldable pub load_seed_data : List EventData → List SectionData → Action env (Unit {0})
    load_seed_data events_data sections_data w =
        let (r, w') = load_data events_data sections_data w in
        elim r [ ok _ ↦ (ok tt, w') | err _ ↦ rollback w' ]
