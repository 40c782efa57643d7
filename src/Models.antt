-- ===== src/Models.antt =====
-- The rows of apps/core-api/src/models and the tables that hold them. An identifier is a UUID's
-- 128-bit number, an instant is in microseconds, a price is in cents (Numeric(10, 2)).
use ticket_booking.Base.{ℕ, Text, Bool, true, false, Option, List}

pub data SeatStatus : Type 0 where
  available hold sold : SeatStatus

pub data ReservationStatus : Type 0 where
  held completed cancelled : ReservationStatus

pub data PaymentStatus : Type 0 where
  pending completed failed : PaymentStatus

pub record User : Type 0 where
  pub user_id : ℕ
  pub email : Text
  pub hashed_password : Text
  pub name : Text
  pub phone : Option Text
  pub created_at : ℕ

pub record Event : Type 0 where
  pub event_id : ℕ
  pub name : Text
  pub description : Option Text
  pub location : Text
  pub start_at : ℕ
  pub end_at : ℕ
  pub total_seats : ℕ
  pub available_seats : ℕ
  pub created_at : ℕ

pub record Seat : Type 0 where
  pub seat_id : ℕ
  pub event_id : ℕ
  pub section : Text
  pub row : Text
  pub seat_number : ℕ
  pub status : SeatStatus
  pub price : ℕ
  pub held_by : Option ℕ
  pub held_until : Option ℕ

pub record Reservation : Type 0 where
  pub reservation_id : ℕ
  pub user_id : ℕ
  pub event_id : ℕ
  pub seat_ids : List Text
  pub status : ReservationStatus
  pub created_at : ℕ
  pub expires_at : ℕ

pub record Payment : Type 0 where
  pub payment_id : ℕ
  pub reservation_id : ℕ
  pub user_id : ℕ
  pub amount : ℕ
  pub status : PaymentStatus
  pub payment_method : Text
  pub created_at : ℕ

pub record Tables : Type 0 where
  pub users : List User
  pub events : List Event
  pub seats : List Seat
  pub reservations : List Reservation
  pub payments : List Payment

-- `status == "available"`
abbrev pub is_available : SeatStatus → Bool
is_available available = true
is_available _ = false

-- `status == "held"`
abbrev pub is_held : ReservationStatus → Bool
is_held held = true
is_held _ = false
