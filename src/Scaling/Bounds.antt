-- ===== src/Scaling/Bounds.antt =====
-- The numbers of pods that a plan may ask for.
use ticket_booking.Base.{
  ℕ, suc, ◌≤◌, ◌≡◌, refl, sym, ◌∙◌, ap, subst, ◌⊎◌, inl, inr, Option, none, some, List, [], ◌∷◌,
  Text, All, length, arith, Bool-cases,
}
use ticket_booking.Exceptions.{Result, ok, err}
use ticket_booking.Models.{Event}
use ticket_booking.Env.{Env, Command}
use ticket_booking.Action.{World, Action, request, execute, pure}
use ticket_booking.Action.Rules.{bind-eq-ok}
use ticket_booking.Scaling.Calculator.{
  Floats, ForecastPoint, ResourceCalculator, ScalingWindow, Ceiling, clip, calculate,
  replicas_per_step, rps_to_replicas, cons_result, windows_of, times_of, merge_windows,
  smooth_scale_down, merge_steps,
}
use ticket_booking.Scaling.Windows.{peak, recommended, merge_windows-peak}
use ticket_booking.Scaling.Plans.{
  Plan, Forecasting, calculator, get_resource_plan, plan_from, plan_for, compute_plan, plan_of,
  plan_key, or_mock, mocked, mock_plan, store_plan, plan_points, predict_points, from_result,
}

abbrev pub InRange : ℕ → Type 0
InRange n = (2 ≤ n) × (n ≤ 50)

clip-InRange : (x : Ceiling) (n : ℕ) → clip x ≡ ok n → InRange n
unfolding clip
clip-InRange x n h = ground arith

All-positive : (rs : List ℕ) → All InRange rs → All (λ r. 1 ≤ r) rs
All-positive [] a = tt
All-positive (r ∷ rs) a = (omega arith, All-positive rs a.1)

peak-InRange : (r : ℕ) (rs : List ℕ) → All InRange (r ∷ rs) → InRange (peak (r ∷ rs))
peak-InRange r [] a = omega arith
peak-InRange r (x ∷ rs) a = let rest = peak-InRange x rs a.1 in omega arith

module _ (c : ResourceCalculator) (fl : Floats) where
  cons-InRange :
      (t : ℕ) (ts rs : List ℕ) (x : Result ℕ) (y : Result (List ℕ))
      → ((n : ℕ) → x ≡ ok n → InRange n)
      → ((ns : List ℕ) → y ≡ ok ns → All InRange ns × (length ts ≡ length ns))
      → cons_result x y ≡ ok rs
      → All InRange rs × (length (t ∷ ts) ≡ length rs)
  cons-InRange t ts rs (err e) y hx hy h = cc
  cons-InRange t ts rs (ok n) (err e) hx hy h = cc
  cons-InRange t ts rs (ok n) (ok ns) hx hy h =
      let same : n ∷ ns ≡ rs = cc in
      subst (λ z. All InRange z × (length (t ∷ ts) ≡ length z)) same
        ((hx n refl, (hy ns refl).0), ap suc ((hy ns refl).1))

  replicas_per_step-InRange :
      (ps : List (ForecastPoint fl)) (rs : List ℕ)
      → replicas_per_step c fl ps ≡ ok rs
      → All InRange rs × (length (times_of c fl ps) ≡ length rs)
  unfolding replicas_per_step rps_to_replicas
  replicas_per_step-InRange [] [] h = (tt, refl)
  replicas_per_step-InRange [] (r ∷ rs) h = cc
  replicas_per_step-InRange (p ∷ ps) rs h =
      cons-InRange p.timestamp (times_of c fl ps) rs _ _ (clip-InRange _)
        (replicas_per_step-InRange ps) h

  no_steps : merge_windows c [] [] ≡ []
  unfolding merge_windows smooth_scale_down merge_steps
  no_steps = refl

  calculated :
      (ps : List (ForecastPoint fl)) (x : Result (List ℕ)) (v : ScalingWindow)
      (vs : List ScalingWindow)
      → ((rs : List ℕ) → x ≡ ok rs → All InRange rs × (length (times_of c fl ps) ≡ length rs))
      → windows_of c fl ps x ≡ ok (v ∷ vs)
      → InRange (peak (recommended (v ∷ vs)))
  calculated ps (err e) v vs a h = cc
  calculated [] (ok []) v vs a h = absurd (ground (arith, no_steps))
  calculated (p ∷ ps) (ok []) v vs a h = absurd (omega (arith, (a [] refl).1))
  calculated ps (ok (r ∷ rs)) v vs a h =
      let (range, long) = a (r ∷ rs) refl in
      let same : merge_windows c (times_of c fl ps) (r ∷ rs) ≡ v ∷ vs = ground arith in
      subst InRange
        (sym (merge_windows-peak c (times_of c fl ps) (r ∷ rs) long (All-positive (r ∷ rs) range))
          ∙ ap (λ ws. peak (recommended ws)) same)
        (peak-InRange r rs range)

  calculate-InRange :
      (ps : List (ForecastPoint fl)) (v : ScalingWindow) (vs : List ScalingWindow)
      → calculate c fl ps ≡ ok (v ∷ vs)
      → InRange (peak (recommended (v ∷ vs)))
  unfolding calculate
  calculate-InRange ps v vs =
      calculated ps (replicas_per_step c fl ps) v vs (replicas_per_step-InRange ps)

module _ (env : Env) (fl : Floats) (fc : Forecasting env fl) where
  plan_of-InRange :
      (ps : List (ForecastPoint fl)) (ws : List ScalingWindow)
      → calculate calculator fl ps ≡ ok ws
      → InRange (plan_of env fl fc ps ws).recommended_replicas
  unfolding plan_of
  plan_of-InRange ps [] h = omega arith
  plan_of-InRange ps (v ∷ vs) h = calculate-InRange calculator fl ps v vs h

  or_mock-eq-ok :
      {A : Type 0} (mock a : A) (m : Action env A) (w : World env)
      → (or_mock env fl fc mock m w).0 ≡ ok a
      → (a ≡ mock) ⊎ ((m w).0 ≡ ok a)
  unfolding or_mock mocked
  or_mock-eq-ok {A} mock a m w = go (m w)
    where
      go :
          (x : Result A × World env)
          → (mocked env fl fc mock x).0 ≡ ok a
          → (a ≡ mock) ⊎ (x.0 ≡ ok a)
      go (ok b, w') h = inr h
      go (err e, w') h = inl (ground arith)

  store_plan-eq-ok :
      (event_id : Text) (q p : Plan fl) (w : World env)
      → (store_plan env fl fc event_id q w).0 ≡ ok p
      → q ≡ p
  unfolding store_plan
  store_plan-eq-ok event_id q p w h =
      let (_, _, k) =
        bind-eq-ok
          (execute env (Command.set (plan_key env fl fc event_id) (fc.dumps_plan q) 300 ∷ []))
          (λ _. pure q) w p h in
      let done : (pure {env = env} q w).0 ≡ ok p = k in ground arith

  compute_plan-InRange :
      (event_id : Text) (event : Event) (w : World env) (p : Plan fl)
      → (compute_plan env fl fc event_id event w).0 ≡ ok p
      → InRange p.recommended_replicas
  unfolding compute_plan plan_points from_result
  compute_plan-InRange event_id event w p h =
      let (points, e, f) =
        bind-eq-ok (predict_points env fl fc event_id event 40) (plan_points env fl fc event_id) w p
          h in
      let (ws, g, k) =
        bind-eq-ok (from_result env fl fc (calculate calculator fl points))
          (λ windows. store_plan env fl fc event_id (plan_of env fl fc points windows)) _ p f in
      subst (λ q. InRange q.recommended_replicas) (store_plan-eq-ok event_id _ p _ k)
        (plan_of-InRange points ws g)

  plan_for-InRange :
      (event_id : Text) (found : Option Event) (w : World env) (p : Plan fl)
      → (plan_for env fl fc event_id found w).0 ≡ ok p
      → InRange p.recommended_replicas
  unfolding plan_for
  plan_for-InRange event_id none w p h =
      let same : mock_plan env fl fc ≡ p = ground arith in
      subst (λ q. InRange q.recommended_replicas) same (omega arith)
  plan_for-InRange event_id (some event) w p h =
      elim (or_mock-eq-ok (mock_plan env fl fc) p (compute_plan env fl fc event_id event) w h) [
        | inl e ↦ subst (λ q. InRange q.recommended_replicas) (sym e) (omega arith)
        | inr e ↦ compute_plan-InRange event_id event w p e
      ]

  -- A plan that is returned is the one that Redis had under the key of the event's plan when
  -- it was asked, or it asks for 2 to 50 pods.
  pub get_resource_plan-InRange :
      (event_id : Text) (w : World env) (p : Plan fl)
      → (get_resource_plan env fl fc event_id w).0 ≡ ok p
      → ((s : Text) × (env.get (plan_key env fl fc event_id) (env.reach w.outside).1 ≡ some s)
          × (fc.loads_plan s ≡ some p))
        ⊎ InRange p.recommended_replicas
  unfolding get_resource_plan plan_from
  get_resource_plan-InRange event_id w p h =
      let (cached, e, f) =
        bind-eq-ok (request env (λ z. (env.get (plan_key env fl fc event_id) z, z)))
          (plan_from env fl fc event_id) w p h in
      from cached _ (read cached e) f
    where
      read :
          (cached : Option Text)
          → (request env (λ z. (env.get (plan_key env fl fc event_id) z, z)) w).0 ≡ ok cached
          → env.get (plan_key env fl fc event_id) (env.reach w.outside).1 ≡ cached
      read cached e = elim (Bool-cases (env.reach w.outside).0) [
        | inl up ↦ ground (arith, rw up at e)
        | inr down ↦ cc (rw down at e)
      ]

      from :
          (cached : Option Text) (w' : World env)
          → env.get (plan_key env fl fc event_id) (env.reach w.outside).1 ≡ cached
          → (plan_from env fl fc event_id cached w').0 ≡ ok p
          → ((s : Text) × (env.get (plan_key env fl fc event_id) (env.reach w.outside).1 ≡ some s)
              × (fc.loads_plan s ≡ some p))
            ⊎ InRange p.recommended_replicas
      from none w' q h = inr (plan_for-InRange event_id _ w' p h)
      from (some []) w' q h = inr (plan_for-InRange event_id _ w' p h)
      from (some (c ∷ s)) w' q h = inl (c ∷ s, q, ground arith)
