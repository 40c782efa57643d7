-- ===== src/Scaling/Plans.antt =====
-- apps/core-api/src/services/prediction_service.py, with the forecaster as a parameter.
use ticket_booking.Base.{
  ℕ, ◌≡◌, ◌++◌, Option, none, some, List, [], ◌∷◌, Text, codes, text_eq, if◌then◌else◌,
}
use ticket_booking.Exceptions.{Result, ok, err, value_error}
use ticket_booking.Models.{Event, Tables}
use ticket_booking.Env.{Env, Command}
use ticket_booking.Action.{Action, World, ◌>>=◌, ◌>>◌, pure, or_raise, query, request, execute}
use ticket_booking.Repositories.Reads.{select_first}
use ticket_booking.Scaling.Calculator.{
  Floats, ForecastPoint, ResourceCalculator, ScalingWindow, calculate,
}
use ticket_booking.Scaling.Windows.{peak, recommended}

module _ (fl : Floats) where
  pub record Plan : Type 0 where
    pub recommended_replicas : ℕ
    pub peak_rps : fl.F

pub record Forecast : Type 0 where
  pub expected_users : ℕ
  pub peak_time : Text

-- `TrafficForecaster.predict`, by the event, its start, its scale and the number of samples, JSON,
-- and `strftime("%H:%M")`.
pub record Forecasting (env : Env) (fl : Floats) : Type 0 where
  pub predict : Text → ℕ → fl.F → ℕ → env.E → Result (List (ForecastPoint fl)) × env.E
  pub dumps_plan : Plan fl → Text
  pub loads_plan : Text → Option (Plan fl)
  pub loads-dumps_plan : (p : Plan fl) → loads_plan (dumps_plan p) ≡ some p
  pub dumps_forecast : Forecast → Text
  pub loads_forecast : Text → Option Forecast
  pub hours_minutes : ℕ → Text

-- `_get_calculator()`
abbrev pub calculator : ResourceCalculator
calculator = record { rps_per_pod = 250; cpu_request_m = 500; memory_request_mi = 512 }

module _ (env : Env) (fl : Floats) (fc : Forecasting env fl) where
  unfoldable pub plan_key : Text → Text
  plan_key event_id = codes "prediction:resource_plan:" ++ event_id

  unfoldable pub forecast_key : Text → Text
  forecast_key event_id = codes "prediction:forecast:" ++ event_id

  -- The first event with this identifier, compared as text.
  unfoldable pub event_by_id : Text → Tables → Option Event
  event_by_id event_id t =
      select_first env (λ e. text_eq (env.uuid_str e.event_id) event_id) t.events

  -- `min(event.total_seats / 50000, 1.0)`
  unfoldable pub event_scale : Event → fl.F
  event_scale event =
      let scale = fl.over (fl.of_nat event.total_seats) 50_000 in
      if fl.greater scale fl.one_float then fl.one_float else scale

  unfoldable pub predict_points : Text → Event → ℕ → Action env (List (ForecastPoint fl))
  predict_points event_id event samples w =
      let (r, e) = fc.predict event_id event.start_at (event_scale event) samples w.outside in
      (r, record w { outside = e })

  unfoldable pub from_result : {A : Type 0} → Result A → Action env A
  from_result r w = (r, w)

  abbrev pub max_float : fl.F → List (ForecastPoint fl) → fl.F
  max_float best [] = best
  max_float best (p ∷ ps) =
      max_float (if fl.greater p.predicted_rps best then p.predicted_rps else best) ps

  -- `max([p.predicted_rps for p in points], default=0.0)`
  unfoldable pub peak_rps_of : List (ForecastPoint fl) → fl.F
  peak_rps_of [] = fl.zero_float
  peak_rps_of (p ∷ ps) = max_float p.predicted_rps ps

  abbrev pub mock_plan : Plan fl
  mock_plan = record { recommended_replicas = 10; peak_rps = fl.zero_float }

  unfoldable pub plan_of : List (ForecastPoint fl) → List ScalingWindow → Plan fl
  plan_of points [] = mock_plan
  plan_of points (w ∷ ws) = record {
    recommended_replicas = peak (recommended (w ∷ ws));
    peak_rps = peak_rps_of points;
  }

  unfoldable pub mocked : {A : Type 0} → A → Result A × World env → Result A × World env
  mocked mock (ok a, w) = (ok a, w)
  mocked mock (err e, w) = (ok mock, w)

  -- `except Exception`: the mock values.
  unfoldable pub or_mock : {A : Type 0} → A → Action env A → Action env A
  or_mock mock m w = mocked mock (m w)

  unfoldable pub store_plan : Text → Plan fl → Action env (Plan fl)
  store_plan event_id result =
      execute env (Command.set (plan_key event_id) (fc.dumps_plan result) 300 ∷ []) >> pure result

  unfoldable pub plan_points : Text → List (ForecastPoint fl) → Action env (Plan fl)
  plan_points event_id points = from_result (calculate calculator fl points) >>= λ windows.
      store_plan event_id (plan_of points windows)

  -- The `try` block of `get_resource_plan`.
  unfoldable pub compute_plan : Text → Event → Action env (Plan fl)
  compute_plan event_id event = predict_points event_id event 40 >>= plan_points event_id

  unfoldable pub plan_for : Text → Option Event → Action env (Plan fl)
  plan_for event_id none = pure mock_plan
  plan_for event_id (some event) = or_mock mock_plan (compute_plan event_id event)

  unfoldable pub plan_from : Text → Option Text → Action env (Plan fl)
  plan_from event_id (some (c ∷ s)) = or_raise (fc.loads_plan (c ∷ s)) value_error
  plan_from event_id _ = query (event_by_id event_id) >>= plan_for event_id

  -- `get_resource_plan`
  unfoldable pub get_resource_plan : Text → Action env (Plan fl)
  get_resource_plan event_id =
      request env (λ e. (env.get (plan_key event_id) e, e)) >>= plan_from event_id

  abbrev pub mock_forecast : Forecast
  mock_forecast = record { expected_users = 5000; peak_time = codes "14:00" }

  -- `max(points, key=lambda p: p.predicted_rps)`, the first of the highest.
  unfoldable pub peak_point : ForecastPoint fl → List (ForecastPoint fl) → ForecastPoint fl
  peak_point best [] = best
  peak_point best (p ∷ ps) =
      peak_point (if fl.greater p.predicted_rps best.predicted_rps then p else best) ps

  unfoldable pub forecast_of : Text → List (ForecastPoint fl) → Action env Forecast
  forecast_of event_id [] = pure mock_forecast
  forecast_of event_id (p ∷ ps) = do
    let top = peak_point p ps
    users ← or_raise (fl.round top.predicted_rps) value_error
    let result =
        let f : Forecast = record {
          expected_users = users;
          peak_time = fc.hours_minutes top.timestamp;
        } in
        f
    execute env (Command.set (forecast_key event_id) (fc.dumps_forecast result) 300 ∷ [])
    pure result

  unfoldable pub forecast_for : Text → Option Event → Action env Forecast
  forecast_for event_id none = pure mock_forecast
  forecast_for event_id (some event) =
      or_mock mock_forecast (predict_points event_id event 10 >>= forecast_of event_id)

  unfoldable pub forecast_from : Text → Option Text → Action env Forecast
  forecast_from event_id (some (c ∷ s)) = or_raise (fc.loads_forecast (c ∷ s)) value_error
  forecast_from event_id _ = query (event_by_id event_id) >>= forecast_for event_id

  -- `get_forecast`
  unfoldable pub get_forecast : Text → Action env Forecast
  get_forecast event_id =
      request env (λ e. (env.get (forecast_key event_id) e, e)) >>= forecast_from event_id
