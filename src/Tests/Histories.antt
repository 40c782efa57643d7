-- ===== src/Tests/Histories.antt =====
-- The theorems on histories of requests, applied to a hold that clashes with another, a payment and a
-- cleanup.
use ticket_booking.Base.{◌≡◌, ◌≤◌, refl, inl, List, [], ◌∷◌, In, arith}
use ticket_booking.Models.{Seat, sold, completed, Tables}
use ticket_booking.Reservations.Common.{parse_all}
use ticket_booking.Reservations.Booking.{lists}
use ticket_booking.Requests.{Request, hold, pay, cancel, cleanup, serve_all}
use ticket_booking.History.Moves.{Reach}
use ticket_booking.History.Frame.{KeepsPlaces, serve_all-KeepsPlaces}
use ticket_booking.History.Finality.{HasKeys, Survives, serve_all-Survives}
use ticket_booking.History.Charges.{IsCharged, charges, completions, serve_all-IsCharged}
use ticket_booking.History.Exact.{IsExact}
use ticket_booking.History.Sales.{serve_all-IsExact}
use ticket_booking.History.Serving.{serve_all-Reach}
use ticket_booking.Tests.Local.{
  local_env, world, at_time, empty_tables, booked_tables, booking, seat,
}

abbrev history : List Request
history =
    hold (1 ∷ []) (9 ∷ []) (21 ∷ 23 ∷ [])
    ∷ hold (2 ∷ []) (9 ∷ []) (23 ∷ [])
    ∷ pay (1 ∷ []) 100 [] 14_000
    ∷ cleanup
    ∷ []

serve_all-Reach_example :
    Reach local_env empty_tables
      (serve_all local_env history (world empty_tables (at_time 0))).session.committed
serve_all-Reach_example = serve_all-Reach local_env history (world empty_tables (at_time 0))

serve_all-KeepsPlaces_example :
    KeepsPlaces empty_tables
      (serve_all local_env history (world empty_tables (at_time 0))).session.committed
serve_all-KeepsPlaces_example =
    serve_all-KeepsPlaces local_env history (world empty_tables (at_time 0))

booked-HasKeys : HasKeys booked_tables
booked-HasKeys k = ground arith

serve_all-Survives_example :
    Survives booking
      (serve_all local_env
        (cancel 50 (1 ∷ []) ∷ history)
        (world booked_tables (at_time 0))).session.committed
serve_all-Survives_example =
    serve_all-Survives local_env booking (cancel 50 (1 ∷ []) ∷ history)
      (world booked_tables (at_time 0)) booked-HasKeys (inl refl)

empty-IsCharged : IsCharged booked_tables
empty-IsCharged k = omega arith

serve_all-IsCharged_example :
    let t =
      (serve_all local_env
        (pay (1 ∷ []) 50 [] 14_000 ∷ history)
        (world booked_tables (at_time 0))).session.committed in
    (charges 50 t ≤ completions 50 t) × (charges 50 t ≤ 1)
serve_all-IsCharged_example =
    serve_all-IsCharged local_env (pay (1 ∷ []) 50 [] 14_000 ∷ history)
      (world booked_tables (at_time 0)) booked-HasKeys empty-IsCharged 50

-- One of the three seats is sold already.
abbrev sold_tables : Tables
sold_tables = record booked_tables {
  seats =
      record (seat 21 5000) { status = sold }
      ∷ seat 22 5000
      ∷ record (seat 23 9000) { status = sold }
      ∷ [];
  reservations = record booking { status = completed } ∷ [];
}

sold-IsExact : IsExact local_env sold_tables
unfolding lists parse_all
sold-IsExact = record {
  unique = λ k. ground arith;
  agreed = ((refl, refl), ((refl, refl), ((refl, refl), tt)));
}

abbrev late_history : List Request
late_history =
    hold (2 ∷ []) (9 ∷ []) (22 ∷ []) ∷ hold (1 ∷ []) (9 ∷ []) (21 ∷ []) ∷ cancel 50 (1 ∷ []) ∷ []

serve_all-IsExact_example :
    IsExact local_env
      (serve_all local_env late_history (world sold_tables (at_time 0))).session.committed
    × ((s : Seat)
        → In s sold_tables.seats
        → s.status ≡ sold
        → In s
            (serve_all local_env late_history
              (world sold_tables (at_time 0))).session.committed.seats)
serve_all-IsExact_example =
    serve_all-IsExact local_env late_history (world sold_tables (at_time 0)) sold-IsExact
