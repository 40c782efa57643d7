-- ===== src/Scaling/Replies.antt =====
-- apps/core-api/src/api/v1/prediction.py: the handlers, which answer fixed values without an event.
use ticket_booking.Base.{ℕ, Option, some, ◌∷◌, Text, codes}
use ticket_booking.Env.{Env}
use ticket_booking.Action.{Action, ◌>>=◌, pure}
use ticket_booking.Scaling.Calculator.{Floats}
use ticket_booking.Scaling.Plans.{
  Forecast, Forecasting, mock_forecast, get_forecast, get_resource_plan,
}

pub record ResourcePlanData : Type 0 where
  pub recommended_replicas : ℕ
  pub scale_trigger : Text

module _ (env : Env) (fl : Floats) (fc : Forecasting env fl) where
  abbrev pub plan_data : ℕ → ResourcePlanData
  plan_data replicas = record { recommended_replicas = replicas; scale_trigger = codes "cpu_70" }

  -- The handler `get_forecast`; an empty identifier counts as none.
  pub reply_forecast : Option Text → Action env Forecast
  reply_forecast (some (c ∷ s)) = get_forecast env fl fc (c ∷ s)
  reply_forecast _ = pure (mock_forecast env fl fc)

  -- The handler `get_resource_plan`
  pub reply_resource_plan : Option Text → Action env ResourcePlanData
  reply_resource_plan (some (c ∷ s)) = do
    plan ← get_resource_plan env fl fc (c ∷ s)
    pure (plan_data plan.recommended_replicas)
  reply_resource_plan _ = pure (plan_data 10)
