-- ===== src/Scaling/Calculator.antt =====
-- apps/core-api/src/prediction/types.py and prediction/resource_calculator.py.
use ticket_booking.Base.{ℕ, ◌*◌, ◌/◌, min, max, Bool, true, false, Option, List, [], ◌∷◌, ◌==◌}
use ticket_booking.Exceptions.{Result, ok, err, value_error}

-- What `math.ceil` makes of a float; it raises on an infinity and on NaN.
pub data Ceiling : Type 0 where
  below_zero : Ceiling
  whole : ℕ → Ceiling
  not_finite : Ceiling

-- The floats that the program computes with.
pub record Floats : Type 1 where
  pub F : Type 0
  pub times : F → F → F
  pub over : F → ℕ → F
  pub ceil : F → Ceiling
  pub greater : F → F → Bool
  pub zero_float : F
  pub one_float : F
  pub of_nat : ℕ → F
  -- `round`, which raises on an infinity and on NaN.
  pub round : F → Option ℕ
  pub safety_factor : F

module _ (fl : Floats) where
  pub record ForecastPoint : Type 0 where
    pub timestamp : ℕ
    pub predicted_rps : fl.F
    pub lower_bound : fl.F
    pub upper_bound : fl.F

pub record ScalingWindow : Type 0 where
  pub from_datetime : ℕ
  pub to_datetime : ℕ
  pub recommended_replicas : ℕ
  pub cpu_request_m : ℕ
  pub memory_request_mi : ℕ

abbrev pub min_replicas : ℕ
min_replicas = 2

abbrev pub max_replicas : ℕ
max_replicas = 50

pub record ResourceCalculator : Type 0 where
  pub rps_per_pod : ℕ
  pub cpu_request_m : ℕ
  pub memory_request_mi : ℕ

-- `max(_MIN_REPLICAS, min(_MAX_REPLICAS, raw))`
unfoldable pub clip : Ceiling → Result ℕ
clip below_zero = ok min_replicas
clip (whole raw) = ok (max min_replicas (min max_replicas raw))
clip not_finite = err value_error

-- The loop of `_smooth_scale_down`, after the step `previous`. `floor(n * 0.8)` in doubles is
-- `4 * n / 5` for the numbers of pods that occur.
unfoldable pub smooth_after : ℕ → List ℕ → List ℕ
smooth_after previous [] = []
smooth_after previous (r ∷ rs) =
    let smoothed = max r (max 1 (previous * 4 / 5)) in smoothed ∷ smooth_after smoothed rs

-- `_smooth_scale_down`
unfoldable pub smooth_scale_down : List ℕ → List ℕ
smooth_scale_down [] = []
smooth_scale_down (r ∷ rs) = r ∷ smooth_after r rs

abbrev pub cons_result : {A : Type 0} → Result A → Result (List A) → Result (List A)
cons_result (err e) _ = err e
cons_result (ok a) (err e) = err e
cons_result (ok a) (ok rs) = ok (a ∷ rs)

module _ (c : ResourceCalculator) where
  unfoldable pub window : ℕ → ℕ → ℕ → ScalingWindow
  window from_datetime to_datetime replicas = record {
    from_datetime = from_datetime;
    to_datetime = to_datetime;
    recommended_replicas = replicas;
    cpu_request_m = c.cpu_request_m;
    memory_request_mi = c.memory_request_mi;
  }

  -- The loop of `_merge_windows` over the times and the smoothed numbers, with the start of the
  -- window, its number, and the time of the step before.
  unfoldable pub merge_from : ℕ → ℕ → ℕ → List (ℕ × ℕ) → List ScalingWindow
  merge_from start replicas before [] = window start before replicas ∷ []
  merge_from start replicas before ((time, r) ∷ steps) = elim (r == replicas) [
    | true ↦ merge_from start replicas time steps
    | false ↦ window start before replicas ∷ merge_from time r time steps
  ]

  unfoldable pub merge_steps : List (ℕ × ℕ) → List ScalingWindow
  merge_steps [] = []
  merge_steps ((time, r) ∷ steps) = merge_from time r time steps

  abbrev pub zip : List ℕ → List ℕ → List (ℕ × ℕ)
  zip [] rs = []
  zip (t ∷ ts) [] = []
  zip (t ∷ ts) (r ∷ rs) = (t, r) ∷ zip ts rs

  -- `_merge_windows`, on the times of the forecast.
  unfoldable pub merge_windows : List ℕ → List ℕ → List ScalingWindow
  merge_windows times replicas = merge_steps (zip times (smooth_scale_down replicas))

  module _ (fl : Floats) where
    -- `_rps_to_replicas`
    unfoldable pub rps_to_replicas : fl.F → Result ℕ
    rps_to_replicas rps = clip (fl.ceil (fl.over rps c.rps_per_pod))

    unfoldable pub replicas_per_step : List (ForecastPoint fl) → Result (List ℕ)
    replicas_per_step [] = ok []
    replicas_per_step (p ∷ ps) =
        cons_result (rps_to_replicas (fl.times p.upper_bound fl.safety_factor))
          (replicas_per_step ps)

    abbrev pub times_of : List (ForecastPoint fl) → List ℕ
    times_of [] = []
    times_of (p ∷ ps) = p.timestamp ∷ times_of ps

    abbrev pub windows_of : List (ForecastPoint fl) → Result (List ℕ) → Result (List ScalingWindow)
    windows_of forecast (err e) = err e
    windows_of forecast (ok replicas) = ok (merge_windows (times_of forecast) replicas)

    -- `calculate`; an empty forecast gives no windows.
    unfoldable pub calculate : List (ForecastPoint fl) → Result (List ScalingWindow)
    calculate forecast = windows_of forecast (replicas_per_step forecast)
