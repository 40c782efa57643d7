-- ===== src/Scaling/Prescale.antt =====
-- apps/core-api/src/services/scaling_service.py: the autoscaler's lower bound is raised before an
-- event opens and put back afterwards.
use ticket_booking.Base.{
  ℕ, ◌+◌, ◌*◌, ◌≡◌, min, Bool, true, false, not, any, List, [], ◌∷◌, Text, text_eq, leb, filter,
  ◌&&◌, if◌then◌else◌, arith, length, ◌<◌, In, inl, inr, text_eq_iff,
}
use ticket_booking.Exceptions.{Result, ok, err}
use ticket_booking.Models.{Event, Tables}
use ticket_booking.Env.{Env}
use ticket_booking.Action.{World}
use ticket_booking.Repositories.Reads.{select}
use ticket_booking.Scaling.Calculator.{Floats}
use ticket_booking.Scaling.Plans.{Plan, Forecasting, get_resource_plan}

-- `_scaled_events`: the events scaled for, with the instant at which each opens.
abbrev pub Scaled : Type 0
Scaled = List (Text × ℕ)

-- `_patch_hpa_min_replicas`, which returns whether the cluster took the number.
pub record Autoscaler (env : Env) : Type 0 where
  pub hpa_min : env.E → ℕ
  pub patch_hpa : ℕ → env.E → Bool × env.E
  pub patch_hpa_lem : (n : ℕ) (e : env.E) → (patch_hpa n e).0 ≡ true → hpa_min (patch_hpa n e).1 ≡ n

abbrev pub minute : ℕ
minute = 60_000_000

abbrev pub default_min_replicas : ℕ
default_min_replicas = 2

-- Whether an event's opening is ten minutes past.
unfoldable pub is_due : ℕ → Text × ℕ → Bool
is_due now (eid, open_at) = leb (open_at + 10 * minute) now

unfoldable pub is_scaled : Text → Scaled → Bool
is_scaled event_id scaled = any (λ (eid, _). text_eq eid event_id) scaled

module _ (env : Env) (fl : Floats) (fc : Forecasting env fl) (hpa : Autoscaler env) where
  -- The events that open in five to fifteen minutes.
  unfoldable pub upcoming : ℕ → Tables → List Event
  upcoming now t =
      select env (λ e. leb (now + 5 * minute) e.start_at && leb e.start_at (now + 15 * minute))
        t.events

  -- What follows a plan: the lower bound is raised, at most to 30, and the event is noted.
  unfoldable pub raise_floor :
      Event → Scaled → Result (Plan fl) × World env → Result (Unit {0}) × Scaled × World env
  raise_floor event scaled (err e, w) = (err e, scaled, w)
  raise_floor event scaled (ok plan, w) =
      let (patched, e) = hpa.patch_hpa (min plan.recommended_replicas 30) w.outside in
      let noted = (env.uuid_str event.event_id, event.start_at) ∷ scaled in
      (ok tt, if patched then noted else scaled, record w { outside = e })

  -- One round of the loop over the upcoming events.
  unfoldable pub scale_for : Event → Scaled → World env → Result (Unit {0}) × Scaled × World env
  scale_for event scaled w =
      let event_id = env.uuid_str event.event_id in
      if is_scaled event_id scaled
      then (ok tt, scaled, w)
      else raise_floor event scaled (get_resource_plan env fl fc event_id w)

  -- The loop, which an exception of Redis ends.
  unfoldable pub scale_all :
      List Event → Scaled → World env → Result (Unit {0}) × Scaled × World env
  scale_all [] scaled w = (ok tt, scaled, w)
  scale_all (event ∷ events) scaled w =
      let (r, scaled', w') = scale_for event scaled w in
      elim r [ ok _ ↦ scale_all events scaled' w' | err e ↦ (err e, scaled', w') ]

  -- The loop over the events to restore: each puts the lower bound back.
  unfoldable pub put_back : Scaled → World env → World env
  put_back [] w = w
  put_back (_ ∷ due) w =
      put_back due (record w { outside = (hpa.patch_hpa default_min_replicas w.outside).1 })

  unfoldable pub restore : ℕ → Scaled → World env → Scaled × World env
  restore now scaled w =
      (filter (λ x. not (is_due now x)) scaled, put_back (filter (is_due now) scaled) w)

  unfoldable pub then_restore :
      ℕ → Result (Unit {0}) × Scaled × World env → Result (Unit {0}) × Scaled × World env
  then_restore now (err e, scaled, w) = (err e, scaled, w)
  then_restore now (ok _, scaled, w) = let (left, w') = restore now scaled w in (ok tt, left, w')

  -- `run_prescale_check`
  unfoldable pub run_prescale_check : Scaled → World env → Result (Unit {0}) × Scaled × World env
  run_prescale_check scaled w =
      let (now, e) = env.utcnow w.outside in
      then_restore now
        (scale_all (upcoming now w.session.working) scaled (record w { outside = e }))

  pub put_back-floor :
      (due : Scaled) (w : World env)
      → ((e : env.E) → (hpa.patch_hpa default_min_replicas e).0 ≡ true)
      → 0 < length due
      → hpa.hpa_min (put_back due w).outside ≡ default_min_replicas
  unfolding put_back
  put_back-floor [] w up h = absurd (omega arith)
  put_back-floor (x ∷ []) w up h = hpa.patch_hpa_lem _ _ (up w.outside)
  put_back-floor (x ∷ y ∷ due) w up h =
      put_back-floor (y ∷ due)
        (record w { outside = (hpa.patch_hpa default_min_replicas w.outside).1 }) up (omega arith)

  kept :
      (now : ℕ) (x : Text × ℕ) (scaled : Scaled)
      → In x scaled
      → is_due now x ≡ false
      → is_scaled x.0 (filter (λ y. not (is_due now y)) scaled) ≡ true
  unfolding is_scaled
  kept now x [] m h = absurd m
  kept now x (y ∷ scaled) (inl e) h = rw (e, h) (ground (arith, text_eq_iff x.0 x.0))
  kept now x (y ∷ scaled) (inr m) h = ground (arith, kept now x scaled m h)

  -- Where the cluster takes every number and some event is due, the restoring lowers the
  -- bound to 2 for all events, also for those that are not due, which stay noted as scaled.
  pub restore-floor :
      (now : ℕ) (scaled : Scaled) (w : World env)
      → ((e : env.E) → (hpa.patch_hpa default_min_replicas e).0 ≡ true)
      → 0 < length (filter (is_due now) scaled)
      → let (left, w') = restore now scaled w in
        (hpa.hpa_min w'.outside ≡ 2)
        × ((x : Text × ℕ) → In x scaled → is_due now x ≡ false → is_scaled x.0 left ≡ true)
  unfolding restore
  restore-floor now scaled w up h =
      (put_back-floor (filter (is_due now) scaled) w up h, λ x m d. kept now x scaled m d)
