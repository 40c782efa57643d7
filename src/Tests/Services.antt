-- ===== src/Tests/Services.antt =====
-- The theorems on the queue, the tokens, the limits, the responses and the scaling, applied at
-- concrete inputs.
use ticket_booking.Base.{
  ℕ, ◌-◌, ◌≤◌, ◌≡◌, ◌≢◌, ◌⊎◌, ◌↔◌, refl, true, false, none, some, List, [], ◌∷◌, ◌++◌, Text, codes,
  count, min, arith, In,
}
use ticket_booking.Exceptions.{
  ok, err, reservation_not_found, redis_error, reservation_expired, http_exception,
}
use ticket_booking.Action.{World}
use ticket_booking.Keys.{
  queue_key, lock_reservation_key, seat_hold_key, cache_seats_key, cache_available_seats_key,
}
use ticket_booking.Keys.Distinct.{lock_reservation_key-distinct}
use ticket_booking.Responses.{is_business, respond_error, respond_error-code_iff}
use ticket_booking.Tokens.{
  Payload, create_queue_token, get_user_from_queue_token, get_current_user, queue_type, access_type,
  bearer, checked, unauthorized, decode_token, require_type, has_type, strip, lstrip, reverse_onto,
  is_space, lower, starts_with, drop,
}
use ticket_booking.Tokens.Roles.{roles_disjoint, queue_token_opens}
use ticket_booking.Queue.{index_of, consume_script, consume_from_queue_atomic, event_stream}
use ticket_booking.Queue.Admission.{admit, admit_fifo, consume_from_queue_atomic-front}
use ticket_booking.Queue.Stream.{IsStream, event_stream-IsStream}
use ticket_booking.Limits.{rule_of}
use ticket_booking.Limits.Window.{is_passed, verdicts, verdicts-count}
use ticket_booking.Scaling.Calculator.{merge_windows}
use ticket_booking.Scaling.Windows.{peak, recommended, merge_windows-peak}
use ticket_booking.Scaling.Plans.{
  plan_key, calculator, get_resource_plan, plan_from, plan_for, event_by_id, mock_plan, plan_key,
}
use ticket_booking.Scaling.Bounds.{InRange, get_resource_plan-InRange}
use ticket_booking.Scaling.Prescale.{Scaled, is_due, is_scaled, restore, restore-floor}
use ticket_booking.Scaling.Scaler.{scale_if_needed, scale_if_needed-grows}
use ticket_booking.Tests.Local.{local_env, world, at_time, empty_tables}
use ticket_booking.Tests.Devices.{
  steady_env, sorted_sets, plain_jwt, counter, whole_floats, steady_forecast, autoscaler, cluster,
}

abbrev start : World local_env
start = world empty_tables (at_time 0)

respond_error-code_iff_example : ((respond_error reservation_not_found).code ≡ 409) ↔ (
    ((is_business reservation_not_found ≡ true) × (reservation_not_found ≢ reservation_expired))
    ⊎ (reservation_not_found ≡ http_exception 409))
respond_error-code_iff_example = respond_error-code_iff reservation_not_found

abbrev access : Payload
access = record {
  sub = 1 ∷ [];
  event_id = 9 ∷ [];
  position = none;
  token_type = some access_type;
  exp = 86_400;
}

abbrev access_header : Text
access_header = codes "Bearer " ++ plain_jwt.encode access

access_opens : (get_current_user local_env plain_jwt access_header start).0 ≡ ok access
unfolding get_current_user bearer checked unauthorized decode_token require_type has_type strip
    lstrip reverse_onto is_space lower starts_with drop
access_opens = refl

roles_disjoint_example : ¬ (
    (get_user_from_queue_token local_env plain_jwt (some access_header) none start).0 ≡ ok access)
roles_disjoint_example =
    roles_disjoint local_env plain_jwt access_header (some access_header) none start start access
      access_opens

abbrev issued : Payload
issued = record {
  sub = 1 ∷ [];
  event_id = 9 ∷ [];
  position = some 3;
  token_type = some queue_type;
  exp = 3600;
}

issues :
    (create_queue_token local_env plain_jwt (1 ∷ []) (9 ∷ []) (some 3) start).0
    ≡ ok (plain_jwt.encode issued)
unfolding create_queue_token
issues = refl

queue_token_opens_example :
    (get_user_from_queue_token local_env plain_jwt none (some (plain_jwt.encode issued)) start).0
    ≡ ok issued
queue_token_opens_example =
    queue_token_opens local_env plain_jwt (1 ∷ []) (9 ∷ []) (some 3) start start
      (plain_jwt.encode issued) issues refl

admitted :
    (admit local_env sorted_sets (queue_key (9 ∷ [])) ((1 ∷ []) ∷ (2 ∷ []) ∷ []) (at_time 0)).0
    ≡ true
unfolding consume_script
admitted = refl

admit_fifo_example :
    (1 ∷ []) ∷ (2 ∷ []) ∷ []
    ≡ ((1 ∷ []) ∷ (2 ∷ []) ∷ [])
      ++ (admit local_env sorted_sets
          (queue_key (9 ∷ []))
          ((1 ∷ []) ∷ (2 ∷ []) ∷ [])
          (at_time 0)).1.queue
admit_fifo_example =
    admit_fifo local_env sorted_sets (queue_key (9 ∷ [])) ((1 ∷ []) ∷ (2 ∷ []) ∷ []) (at_time 0)
      admitted

consume_from_queue_atomic-front_example :
    let before : List Text = (1 ∷ []) ∷ (2 ∷ []) ∷ [] in
    let x = consume_from_queue_atomic local_env sorted_sets (9 ∷ []) (2 ∷ []) start in
    let after = x.1.outside.queue in
    (((x.0 ≡ ok true) × (before ≡ (2 ∷ []) ∷ after))
      ⊎ ((x.0 ≡ ok false) × (¬ (index_of (2 ∷ []) before ≡ some 0)) × (after ≡ before)))
    ⊎ ((x.0 ≡ err redis_error) × (after ≡ before))
consume_from_queue_atomic-front_example =
    consume_from_queue_atomic-front local_env sorted_sets (9 ∷ []) (2 ∷ []) start

event_stream-IsStream_example :
    IsStream (event_stream local_env sorted_sets plain_jwt 3 (2 ∷ []) (9 ∷ []) start).0
event_stream-IsStream_example =
    event_stream-IsStream local_env sorted_sets plain_jwt 3 (2 ∷ []) (9 ∷ []) start

abbrev steady : World steady_env
steady = record {
  session = record { working = empty_tables; committed = empty_tables };
  outside = at_time 0;
  counters = record { duplicates = 0; released = 0 };
}

verdicts-count_example :
    count is_passed
      (verdicts steady_env counter plain_jwt 7 (rule_of (codes "/x")) (codes "k") steady)
    ≡ min 7 ((rule_of (codes "/x")).max_requests - 0)
verdicts-count_example =
    verdicts-count steady_env counter plain_jwt 7 (rule_of (codes "/x")) (codes "k") steady
      (λ e. refl)

merge_windows-peak_example :
    peak (recommended (merge_windows calculator (1 ∷ 2 ∷ 3 ∷ []) (4 ∷ 20 ∷ 3 ∷ [])))
    ≡ peak (4 ∷ 20 ∷ 3 ∷ [])
merge_windows-peak_example =
    merge_windows-peak calculator (1 ∷ 2 ∷ 3 ∷ []) (4 ∷ 20 ∷ 3 ∷ []) refl
      (omega arith, (omega arith, (omega arith, tt)))

plans :
    (get_resource_plan local_env whole_floats steady_forecast (7 ∷ []) start).0
    ≡ ok (mock_plan local_env whole_floats steady_forecast)
unfolding get_resource_plan plan_from plan_for event_by_id plan_key
plans = refl

get_resource_plan-InRange_example :
    ((s : Text) × (local_env.get
          (plan_key local_env whole_floats steady_forecast (7 ∷ []))
          (local_env.reach start.outside).1
        ≡ some s)
      × (steady_forecast.loads_plan s ≡ some (mock_plan local_env whole_floats steady_forecast)))
    ⊎ InRange 10
get_resource_plan-InRange_example =
    get_resource_plan-InRange local_env whole_floats steady_forecast (7 ∷ []) start
      (mock_plan local_env whole_floats steady_forecast) plans

-- One event opened half an hour ago, another opens in eight minutes.
abbrev scaled : Scaled
scaled = (5 ∷ [], 0) ∷ (6 ∷ [], 2_280_000_000) ∷ []

restore-floor_example :
    let (left, w') =
      restore local_env whole_floats steady_forecast autoscaler 1_800_000_000 scaled start in
    (w'.outside.pods ≡ 2)
    × ((x : Text × ℕ) → In x scaled → is_due 1_800_000_000 x ≡ false → is_scaled x.0 left ≡ true)
unfolding is_due
restore-floor_example =
    restore-floor local_env whole_floats steady_forecast autoscaler 1_800_000_000 scaled start
      (λ e. refl) (omega arith)

scale_if_needed-grows_example :
    4 ≤ (scale_if_needed local_env whole_floats steady_forecast cluster 3 (at_time 0)).pods
scale_if_needed-grows_example =
    scale_if_needed-grows local_env whole_floats steady_forecast cluster 3 (at_time 0)

lock_reservation_key-distinct_example :
    (lock_reservation_key (9 ∷ []) ≢ seat_hold_key (9 ∷ []) (21 ∷ []))
    × (lock_reservation_key (9 ∷ []) ≢ cache_seats_key (9 ∷ []))
    × (lock_reservation_key (9 ∷ []) ≢ cache_available_seats_key (9 ∷ []))
    × (lock_reservation_key (9 ∷ []) ≢ queue_key (9 ∷ []))
lock_reservation_key-distinct_example = lock_reservation_key-distinct (9 ∷ []) (9 ∷ []) (21 ∷ [])
