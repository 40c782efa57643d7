-- ===== src/Keys.antt =====
-- apps/core-api/src/redis/constants.py: the keys that the program uses in Redis, and their times to
-- live in seconds.
pub mod Distinct
use ticket_booking.Base.{ℕ, ◌++◌, Text, codes}

-- `QUEUE_KEY`
unfoldable pub queue_key : Text → Text
queue_key event_id = codes "queue:" ++ event_id

-- `SEAT_HOLD_KEY`
unfoldable pub seat_hold_key : Text → Text → Text
seat_hold_key event_id seat_id =
    codes "seat:" ++ (event_id ++ (codes ":" ++ (seat_id ++ codes ":hold")))

-- `SEAT_STATUS_KEY`
unfoldable pub seat_status_key : Text → Text
seat_status_key event_id = codes "seat:" ++ (event_id ++ codes ":status")

-- `LOCK_RESERVATION_KEY`
unfoldable pub lock_reservation_key : Text → Text
lock_reservation_key event_id = codes "lock:reservation:" ++ event_id

-- `CACHE_EVENT_KEY`
unfoldable pub cache_event_key : Text → Text
cache_event_key event_id = codes "cache:event:" ++ event_id

-- `CACHE_SEATS_KEY`
unfoldable pub cache_seats_key : Text → Text
cache_seats_key event_id = codes "cache:seats:" ++ event_id

-- `CACHE_AVAILABLE_SEATS_KEY`
unfoldable pub cache_available_seats_key : Text → Text
cache_available_seats_key event_id = codes "cache:available-seats:" ++ event_id

abbrev pub queue_ttl : ℕ
queue_ttl = 3600

abbrev pub lock_ttl : ℕ
lock_ttl = 300

abbrev pub cache_ttl : ℕ
cache_ttl = 600

abbrev pub seat_hold_ttl : ℕ
seat_hold_ttl = 300

abbrev pub seat_cache_ttl : ℕ
seat_cache_ttl = 10
