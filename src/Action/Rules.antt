-- ===== src/Action/Rules.antt =====
-- Rules for the calls that a service chains.
use ticket_booking.Base.{List, ◌≡◌, refl, ◌∙◌, inl, inr, true, Bool-cases}
use ticket_booking.Exceptions.{Result, ok, err}
use ticket_booking.Env.{Env, Command}
use ticket_booking.Action.{Action, World, ◌>>=◌, request, execute, run_commands}

-- Nothing but the world outside differs.
abbrev pub Outside : {env : Env} → World env → World env → Type 0
Outside w w' = (w'.session ≡ w.session) × (w'.counters ≡ w.counters)

module _ {env : Env} {A B : Type 0} where
  abbrev pub bind_result : (A → Action env B) → Result A × World env → Result B × World env
  bind_result f (r, w) = elim r [ ok a ↦ f a w | err e ↦ (err e, w) ]

  pub Outside-bind :
      (m : Action env A) (f : A → Action env B) (w : World env)
      → Outside w (m w).1
      → ((a : A) (w' : World env) → Outside w' (f a w').1)
      → Outside w ((m >>= f) w).1
  Outside-bind m f w hm hf = go (m w) hm
    where
      go : (r : Result A × World env) → Outside w r.1 → Outside w (bind_result f r).1
      go (ok a, w') h = ((hf a w').0 ∙ h.0, (hf a w').1 ∙ h.1)
      go (err e, w') h = h

  -- A chain that returns has come through its first call.
  pub bind-eq-ok :
      (m : Action env A) (f : A → Action env B) (w : World env) (b : B)
      → ((m >>= f) w).0 ≡ ok b
      → (a : A) × ((m w).0 ≡ ok a) × ((f a (m w).1).0 ≡ ok b)
  bind-eq-ok m f w b = go (m w)
    where
      go :
          (x : Result A × World env)
          → (bind_result f x).0 ≡ ok b
          → (a : A) × (x.0 ≡ ok a) × ((f a x.1).0 ≡ ok b)
      go (ok a, w') h = (a, refl, h)
      go (err e, w') h = cc

module _ (env : Env) where
  pub request-Outside :
      {A : Type 0} (f : env.E → A × env.E) (w : World env) → Outside w (request env f w).1
  request-Outside f w = elim (Bool-cases (env.reach w.outside).0) [
    | inl e ↦ rw e (refl, refl)
    | inr e ↦ rw e (refl, refl)
  ]

  pub execute-Outside : (cs : List Command) (w : World env) → Outside w (execute env cs w).1
  execute-Outside cs w = request-Outside (λ e. (tt, run_commands env cs e)) w

  -- Where Redis is reached, a request is the command.
  pub request-up :
      {A : Type 0} (f : env.E → A × env.E) (w : World env)
      → (env.reach w.outside).0 ≡ true
      → request env f w
        ≡ (ok (f (env.reach w.outside).1).0, record w { outside = (f (env.reach w.outside).1).1 })
  request-up f w h = rw h refl
