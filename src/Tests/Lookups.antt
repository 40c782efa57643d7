-- ===== src/Tests/Lookups.antt =====
-- The theorems on the lists of events and seats, applied to a small table.
use ticket_booking.Base.{
  ℕ, zero, suc, ◌≡◌, refl, sym, ◌∙◌, inl, inr, ap, true, false, Option, none, some, List, [], ◌∷◌,
  map, Text, length, ◌==◌, text_eq, text_eq_iff, arith, Bool-cases,
}
use ticket_booking.Exceptions.{ok, err, http_exception}
use mathlib.Core.List.{Permᴰ}
use ticket_booking.Models.{Event, SeatStatus, available, hold, sold, Tables}
use ticket_booking.Action.{World}
use ticket_booking.Reservations.Common.{publish_seat_update}
use ticket_booking.Catalogue.{SeatResponse, Json, get_events, to_event_response, seat_list}
use ticket_booking.Catalogue.Endpoints.{
  success, success_cached, get_seats, get_event_seats, get_available_seats,
}
use ticket_booking.Catalogue.Paging.{IsNewestFirst, StartApart, shown, get_events_pages}
use ticket_booking.Catalogue.Stored.{CacheLaws}
use ticket_booking.Catalogue.Caching.{
  current, current_available, get_seats_again, publish-fresh, get_event_seats_unknown,
}
use ticket_booking.Tests.Local.{
  lookup, erase, local_env, at_time, empty_tables, booked_tables, taken_seat, concert,
}
use ticket_booking.Tests.Devices.{put, take_text, split-append, steady_env}

-- A writing of seat lists that can be read back.
abbrev status_code : SeatStatus → ℕ
status_code available = 0
status_code hold = 1
status_code sold = 2

abbrev code_status : ℕ → SeatStatus
code_status zero = available
code_status (suc zero) = hold
code_status (suc (suc _)) = sold

abbrev write_seat : SeatResponse → Text → Text
write_seat s rest =
    s.seat_id
    ∷ s.event_id
    ∷ s.seat_number
    ∷ status_code s.status
    ∷ s.price
    ∷ put s.section (put s.row rest)

abbrev write_seats : List SeatResponse → Text
write_seats [] = []
write_seats (s ∷ ss) = write_seat s (write_seats ss)

abbrev cons_seat : SeatResponse → Option (List SeatResponse) → Option (List SeatResponse)
cons_seat s none = none
cons_seat s (some ss) = some (s ∷ ss)

abbrev read_seats : ℕ → Text → Option (List SeatResponse)
read_seats zero t = some []
read_seats (suc n) (k ∷ e ∷ i ∷ st ∷ p ∷ t) =
    let (section, t1) = take_text t in
    let (row, t2) = take_text t1 in
    let rest = read_seats n t2 in
    cons_seat
      (record {
        seat_id = k;
        event_id = e;
        section = section;
        row = row;
        seat_number = i;
        status = code_status st;
        price = p;
      })
      rest
read_seats (suc n) _ = none

code_status_lem : (st : SeatStatus) → code_status (status_code st) ≡ st
code_status_lem available = refl
code_status_lem hold = refl
code_status_lem sold = refl

read-write_seats : (ss : List SeatResponse) → read_seats (length ss) (write_seats ss) ≡ some ss
read-write_seats [] = refl
read-write_seats (s ∷ ss) =
    rw
      (
        split-append s.section (put s.row (write_seats ss)),
        split-append s.row (write_seats ss),
        code_status_lem s.status,
        read-write_seats ss,
      )
      refl

abbrev loads : Text → Option (List SeatResponse)
loads [] = none
loads (n ∷ t) = read_seats n t

filled : (ss : List SeatResponse) → (length (length ss ∷ write_seats ss) == 0) ≡ false
filled ss = ground arith

abbrev plain_json : Json
plain_json = record {
  text_leb = λ s t. true;
  dumps = λ ss. length ss ∷ write_seats ss;
  loads = loads;
  loads-dumps = read-write_seats;
  dumps_filled = filled;
}

pub same_text : (k : Text) → text_eq k k ≡ true
same_text k = (text_eq_iff k k).1 refl

pub lookup-erase : (k : Text) (es : List (Text × Text)) → lookup k (erase k es) ≡ none
lookup-erase k [] = refl
lookup-erase k ((j, v) ∷ es) = elim (Bool-cases (text_eq j k)) [
  | inl e ↦ rw e (lookup-erase k es)
  | inr e ↦ rw e (rw e (lookup-erase k es))
]

lookup-erase-none :
    (j k : Text) (es : List (Text × Text)) → lookup j es ≡ none → lookup j (erase k es) ≡ none
lookup-erase-none j k [] h = refl
lookup-erase-none j k ((i, v) ∷ es) h = ground (arith, lookup-erase-none j k es)

steady_laws : CacheLaws steady_env
steady_laws = record {
  up = λ e. refl;
  get-reach = λ k e. refl;
  get-utcnow = λ k e. refl;
  get-set = λ k v ttl e. rw (same_text k) refl;
  get-delete = λ k e. lookup-erase k e.entries;
  delete_again = λ j k e h. lookup-erase-none j k e.entries h;
  get-publish = λ k c u e. refl;
}

abbrev later_concert : Event
later_concert = record concert { event_id = 8; start_at = 5 }

abbrev two_events : Tables
two_events = record empty_tables { events = concert ∷ later_concert ∷ [] }

two_events-StartApart : StartApart two_events.events
two_events-StartApart a b (inl i) (inl j) e = sym i ∙ j
two_events-StartApart a b (inl i) (inr (inl j)) e =
    absurd (ground (arith, ap (λ x. x.start_at) i, ap (λ x. x.start_at) j))
two_events-StartApart a b (inr (inl i)) (inl j) e =
    absurd (ground (arith, ap (λ x. x.start_at) i, ap (λ x. x.start_at) j))
two_events-StartApart a b (inr (inl i)) (inr (inl j)) e = sym i ∙ j
two_events-StartApart a b (inl i) (inr (inr x)) e = absurd x
two_events-StartApart a b (inr (inl i)) (inr (inr x)) e = absurd x
two_events-StartApart a b (inr (inr x)) m e = absurd x

get_events_pages_example :
    ((rows : List Event) × (shown (λ _. local_env) 1 two_events 2 ≡ map to_event_response rows)
      × Permᴰ rows two_events.events
      × IsNewestFirst rows)
    × ((page : ℕ) → (get_events local_env page 1 two_events).total ≡ 2)
get_events_pages_example =
    get_events_pages (λ _. local_env) 1 two_events 2 two_events-StartApart (omega arith)

abbrev opened : World steady_env
opened = record {
  session = record { working = empty_tables; committed = empty_tables };
  outside = at_time 0;
  counters = record { duplicates = 0; released = 0 };
}

get_seats_again_example :
    let x = get_seats steady_env plain_json 9 opened in
    let later = record x.1 {
      session = record { working = booked_tables; committed = booked_tables };
    } in
    (x.0 ≡ ok (success (current steady_env plain_json steady_laws 9 empty_tables)))
    × ((get_seats steady_env plain_json 9 later).0
        ≡ ok (success_cached (current steady_env plain_json steady_laws 9 empty_tables)))
    × ((get_event_seats steady_env plain_json 9 later).0
        ≡ ok (success_cached (current steady_env plain_json steady_laws 9 empty_tables)))
get_seats_again_example =
    get_seats_again steady_env plain_json steady_laws 9 opened
      (record { working = booked_tables; committed = booked_tables }) refl

publish-fresh_example :
    let w' = (publish_seat_update steady_env (9 ∷ []) (taken_seat 21 5000 ∷ []) hold opened).1 in
    ((get_seats steady_env plain_json 9 w').0
      ≡ ok (success (current steady_env plain_json steady_laws 9 empty_tables)))
    × ((get_available_seats steady_env plain_json 9 w').0
        ≡ ok (success (current_available steady_env plain_json steady_laws 9 empty_tables)))
publish-fresh_example =
    publish-fresh steady_env plain_json steady_laws 9 (taken_seat 21 5000 ∷ []) hold opened

get_event_seats_unknown_example :
    ((get_event_seats steady_env plain_json 7 opened).0 ≡ err (http_exception 404))
    × ((get_event_seats steady_env plain_json 7 (get_seats steady_env plain_json 7 opened).1).0
        ≡ ok (success_cached (seat_list [])))
get_event_seats_unknown_example =
    get_event_seats_unknown steady_env plain_json steady_laws 7 opened refl refl refl
