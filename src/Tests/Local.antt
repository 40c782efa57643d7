-- ===== src/Tests/Local.antt =====
-- A world for the tests: Redis as a list of keys that do not expire, a clock that steps by a second,
-- UUIDs counted up and written as one code point, and rows in the order of the tables.
use mathlib.Core.List.{Permᴰ}
use ticket_booking.Base.{
  ℕ, suc, ◌+◌, refl, Bool, true, false, Option, none, some, List, [], ◌∷◌, Text, text_eq, codes,
  if◌then◌else◌,
}
use ticket_booking.Models.{User, Event, Seat, Reservation, Tables, available, hold, held}
use ticket_booking.Env.{Env, Command}
use ticket_booking.Action.{World}

pub record Machine : Type 0 where
  pub next_id : ℕ
  pub clock : ℕ
  pub entries : List (Text × Text)
  pub is_up : Bool
  pub accepts : Bool
  -- One waiting queue, one counter of requests and one deployment.
  pub queue : List Text
  pub hits : ℕ
  pub pods : ℕ

abbrev pub lookup : Text → List (Text × Text) → Option Text
lookup k [] = none
lookup k ((j, v) ∷ es) = if text_eq j k then some v else lookup k es

abbrev pub erase : Text → List (Text × Text) → List (Text × Text)
erase k [] = []
erase k ((j, v) ∷ es) = if text_eq j k then erase k es else (j, v) ∷ erase k es

abbrev pub parse_one : Text → Option ℕ
parse_one [] = none
parse_one (u ∷ []) = some u
parse_one (u ∷ c ∷ s) = none

abbrev pub set_new : Text → Text → Machine → Option Text → Bool × Machine
set_new k v m none = (true, record m { entries = (k, v) ∷ m.entries })
set_new k v m (some _) = (false, m)

abbrev run_command : Command → Machine → Machine
run_command (Command.set k v _) m = record m { entries = (k, v) ∷ erase k m.entries }
run_command (Command.delete k) m = record m { entries = erase k m.entries }
run_command (Command.publish _ _) m = m

pub same_order : (A : Type 0) (rows : List A) → Permᴰ rows rows
same_order A [] = Permᴰ.nil
same_order A (x ∷ rows) = Permᴰ.cons refl (same_order A rows)

abbrev pub local_env : Env
local_env = record {
  E = Machine;
  order = λ A rows. rows;
  order-perm = same_order;
  internal_secret = codes "s3cret";
  uuid_str = λ u. u ∷ [];
  uuid_parse = parse_one;
  uuid_parse-uuid_str = λ u. refl;
  uuid4 = λ m. (m.next_id, record m { next_id = suc m.next_id });
  utcnow = λ m. (m.clock, record m { clock = m.clock + 1_000_000 });
  sleep = λ ms m. record m { clock = m.clock + 1000 };
  lucky = λ m. (m.accepts, m);
  reach = λ m. (m.is_up, m);
  set_nx = λ k v ttl m. set_new k v m (lookup k m.entries);
  get = λ k m. lookup k m.entries;
  del = λ k m. (1, record m { entries = erase k m.entries });
  command = run_command;
}

abbrev pub alice : User
alice = record {
  user_id = 1;
  email = codes "a@x";
  hashed_password = [];
  name = codes "Alice";
  phone = none;
  created_at = 0;
}

abbrev pub bob : User
bob = record {
  user_id = 2;
  email = codes "b@x";
  hashed_password = [];
  name = codes "Bob";
  phone = none;
  created_at = 0;
}

abbrev pub concert : Event
concert = record {
  event_id = 9;
  name = codes "Concert";
  description = none;
  location = codes "Hall";
  start_at = 0;
  end_at = 10;
  total_seats = 3;
  available_seats = 3;
  created_at = 0;
}

abbrev pub seat : ℕ → ℕ → Seat
seat k price = record {
  seat_id = k;
  event_id = 9;
  section = codes "A";
  row = codes "01";
  seat_number = k;
  status = available;
  price = price;
  held_by = none;
  held_until = none;
}

abbrev pub empty_tables : Tables
empty_tables = record {
  users = alice ∷ bob ∷ [];
  events = concert ∷ [];
  seats = seat 21 5000 ∷ seat 22 5000 ∷ seat 23 9000 ∷ [];
  reservations = [];
  payments = [];
}

-- Alice has held two seats.
abbrev pub booking : Reservation
booking = record {
  reservation_id = 50;
  user_id = 1;
  event_id = 9;
  seat_ids = (21 ∷ []) ∷ (23 ∷ []) ∷ [];
  status = held;
  created_at = 0;
  expires_at = 300_000_000;
}

abbrev pub taken_seat : ℕ → ℕ → Seat
taken_seat k price = record (seat k price) {
  status = hold;
  held_by = some 1;
  held_until = some 300_000_000;
}

abbrev pub booked_tables : Tables
booked_tables = record empty_tables {
  seats = taken_seat 21 5000 ∷ seat 22 5000 ∷ taken_seat 23 9000 ∷ [];
  reservations = booking ∷ [];
}

-- All is well outside, at an instant.
abbrev pub at_time : ℕ → Machine
at_time now = record {
  next_id = 100;
  clock = now;
  entries = [];
  is_up = true;
  accepts = true;
  queue = (1 ∷ []) ∷ (2 ∷ []) ∷ [];
  hits = 0;
  pods = 4;
}

abbrev pub world : Tables → Machine → World local_env
world t m = record {
  session = record { working = t; committed = t };
  outside = m;
  counters = record { duplicates = 0; released = 0 };
}
