-- ===== src/Env.antt =====
-- What the program takes from outside its repository: the SQL engine's order of rows, UUIDs, the
-- clock, the random numbers and a Redis server. Every service takes an `Env` as a parameter.
use mathlib.Core.List.{Permᴰ}
use ticket_booking.Base.{ℕ, Text, Bool, Option, some, List, ◌≡◌}
use ticket_booking.Models.{SeatStatus}

-- The payload of a seat update, before `json.dumps`.
pub record SeatUpdate : Type 0 where
  pub event_id : Text
  pub seats : List (Text × SeatStatus)
  pub timestamp : ℕ

-- The commands that the program queues in a pipeline.
pub data Command : Type 0 where
  set : Text → Text → ℕ → Command
  delete : Text → Command
  publish : Text → SeatUpdate → Command

pub record Env : Type 1 where
  -- The state of the world outside the process.
  pub E : Type 0
  -- The order in which a query with no ORDER BY returns its rows.
  pub order : (A : Type 0) → List A → List A
  pub order-perm : (A : Type 0) (rows : List A) → Permᴰ (order A rows) rows
  -- `settings.internal_secret`
  pub internal_secret : Text
  -- `str(u)` and `uuid.UUID(s)`, where `none` is a ValueError.
  pub uuid_str : ℕ → Text
  pub uuid_parse : Text → Option ℕ
  pub uuid_parse-uuid_str : (u : ℕ) → uuid_parse (uuid_str u) ≡ some u
  -- `uuid.uuid4()`, `datetime.utcnow()` in microseconds, `time.sleep` in milliseconds.
  pub uuid4 : E → ℕ × E
  pub utcnow : E → ℕ × E
  pub sleep : ℕ → E → E
  -- `random.random() < 0.95`
  pub lucky : E → Bool × E
  -- Whether the next request reaches Redis; if not, the client raises.
  pub reach : E → Bool × E
  -- `SET key value NX PX ttl`, `GET key`, `DEL key`, and a command of a pipeline.
  pub set_nx : Text → Text → ℕ → E → Bool × E
  pub get : Text → E → Option Text
  pub del : Text → E → ℕ × E
  pub command : Command → E → E
