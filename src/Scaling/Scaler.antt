-- ===== src/Scaling/Scaler.antt =====
-- apps/core-api/src/services/scaler_service.py: the deployment is scaled up, never down.
use ticket_booking.Base.{
  ℕ, ◌+◌, ◌*◌, ◌≤◌, ◌≡◌, refl, max, Bool, Option, none, some, List, [], ◌∷◌, map, Text, ltb, leb,
  ◌&&◌, if◌then◌else◌, arith, inl, inr, Bool-cases,
}
use ticket_booking.Exceptions.{Result, ok, err}
use ticket_booking.Env.{Env}
use ticket_booking.Action.{Action, World, ◌>>=◌, pure, external, query}
use ticket_booking.Repositories.Reads.{select}
use ticket_booking.Scaling.Calculator.{Floats}
use ticket_booking.Scaling.Plans.{Plan, Forecasting, get_resource_plan}

-- The Kubernetes API: `is_client` says whether the process runs in a cluster, `read_scale` is `none`
-- and `patch_scale` false where the API raises.
pub record Cluster (env : Env) : Type 0 where
  pub replicas : env.E → ℕ
  pub is_client : Bool
  pub read_scale : env.E → Option ℕ × env.E
  pub patch_scale : ℕ → env.E → Bool × env.E
  pub read_scale_lem :
      (e : env.E) (n : ℕ) → (read_scale e).0 ≡ some n → replicas (read_scale e).1 ≡ n
  pub read_scale-same : (e : env.E) → replicas (read_scale e).1 ≡ replicas e
  pub patch_scale_lem :
      (n : ℕ) (e : env.E)
      → replicas (patch_scale n e).1 ≡ (if (patch_scale n e).0 then n else replicas e)

abbrev pub safety_replicas : ℕ
safety_replicas = 3

module _ (env : Env) (fl : Floats) (fc : Forecasting env fl) (cluster : Cluster env) where
  -- `get_upcoming_event_ids`
  unfoldable pub get_upcoming_event_ids : Action env (List Text)
  get_upcoming_event_ids = do
    now ← external env env.utcnow
    let lookahead = now + 60 * 60_000_000
    events ← query λ t. select env (λ e. leb now e.start_at && leb e.start_at lookahead) t.events
    pure (map (λ e. env.uuid_str e.event_id) events)

  abbrev pub raise_to : ℕ → Result (Plan fl) → ℕ
  raise_to best (err e) = best
  raise_to best (ok plan) = max best plan.recommended_replicas

  -- The loop of `predict_max_replicas`, which skips an event whose prediction raises.
  unfoldable pub max_from : ℕ → List Text → World env → ℕ × World env
  max_from best [] w = (best, w)
  max_from best (event_id ∷ ids) w =
      let (r, w') = get_resource_plan env fl fc event_id w in max_from (raise_to best r) ids w'

  -- `predict_max_replicas`
  unfoldable pub predict_max_replicas : List Text → World env → ℕ × World env
  predict_max_replicas ids w = max_from safety_replicas ids w

  -- `get_current_replicas`
  unfoldable pub get_current_replicas : env.E → Option ℕ × env.E
  get_current_replicas e = if cluster.is_client then cluster.read_scale e else (none, e)

  unfoldable pub scale_from : ℕ → Option ℕ × env.E → env.E
  scale_from target_replicas (none, e) = e
  scale_from target_replicas (some current, e) =
      if ltb current target_replicas then (cluster.patch_scale target_replicas e).1 else e

  -- `scale_if_needed`
  unfoldable pub scale_if_needed : ℕ → env.E → env.E
  scale_if_needed target_replicas e =
      if cluster.is_client then scale_from target_replicas (get_current_replicas e) else e

  scale_from-grows :
      (target : ℕ) (x : Option ℕ × env.E)
      → ((n : ℕ) → x.0 ≡ some n → cluster.replicas x.1 ≡ n)
      → cluster.replicas x.1 ≤ cluster.replicas (scale_from target x)
  unfolding scale_from
  scale_from-grows target (none, e) h = omega arith
  scale_from-grows target (some n, e) h = ground (arith, h n refl, cluster.patch_scale_lem target e)

  -- Whatever the target and however the cluster answers, scale_if_needed never lowers the
  -- number of pods.
  pub scale_if_needed-grows :
      (target : ℕ) (e : env.E) → cluster.replicas e ≤ cluster.replicas (scale_if_needed target e)
  unfolding scale_if_needed get_current_replicas scale_from
  scale_if_needed-grows target e = elim (Bool-cases cluster.is_client) [
    | inr f ↦ rw f (omega arith)
    | inl f ↦ rw f (
        omega (
          arith,
          cluster.read_scale-same e,
          scale_from-grows target (cluster.read_scale e) (cluster.read_scale_lem e),
        ))
  ]
