-- ===== src/Action.antt =====
-- A call of a service: it changes the request's database session and the world outside, and
-- returns or raises. What was done before a raise stays done.
pub mod Rules
use ticket_booking.Base.{ℕ, Bool, Option, none, some, List, if◌then◌else◌, foldl}
use ticket_booking.Exceptions.{Error, Result, ok, err, redis_error as redis_failure}
use ticket_booking.Models.{Tables}
use ticket_booking.Env.{Env, Command}

-- `SessionLocal()`: the tables as this session sees them, and as they are for everybody else.
pub record Session : Type 0 where
  pub working : Tables
  pub committed : Tables

-- The counter `duplicate_reservation_total`, and the variable `released_count` of the loops that
-- release holds, which an exception does not reset.
pub record Counters : Type 0 where
  pub duplicates : ℕ
  pub released : ℕ

pub record World (env : Env) : Type 0 where
  pub session : Session
  pub outside : env.E
  pub counters : Counters

abbrev pub Action : Env → Type 0 → Type 0
Action env A = World env → Result A × World env

infixl 5 ◌>>=◌ ◌>>◌
abbrev pub ◌>>=◌ : {env : Env} {A B : Type 0} → Action env A → (A → Action env B) → Action env B
◌>>=◌ m f w = let (r, w') = m w in elim r [ ok a ↦ f a w' | err e ↦ (err e, w') ]

abbrev pub ◌>>◌ : {env : Env} {A B : Type 0} → Action env A → Action env B → Action env B
m >> k = m >>= λ _. k

module _ {env : Env} {A : Type 0} where
  abbrev pub pure : A → Action env A
  pure a w = (ok a, w)

  abbrev pub raise : Error → Action env A
  raise e w = (err e, w)

  abbrev pub or_raise : Option A → Error → Action env A
  or_raise none e w = (err e, w)
  or_raise (some a) e w = (ok a, w)

  -- A look at the session's tables.
  abbrev pub query : (Tables → A) → Action env A
  query f w = (ok (f w.session.working), w)

module _ (env : Env) {A : Type 0} where
  -- Something outside that always answers.
  abbrev pub external : (env.E → A × env.E) → Action env A
  external f w = let (a, e) = f w.outside in (ok a, record w { outside = e })

  -- One request to Redis.
  abbrev pub request : (env.E → A × env.E) → Action env A
  request f w =
      let (reached, e) = env.reach w.outside in
      let (a, e') = f e in
      if reached
      then (ok a, record w { outside = e' })
      else (err redis_failure, record w { outside = e })

module _ {env : Env} where
  abbrev pub raise_if : Bool → Error → Action env (Unit {0})
  raise_if b e w = (if b then err e else ok tt, w)

  -- Writes of the session, `Session.commit` and `Session.rollback`.
  abbrev pub change : (Tables → Tables) → Action env (Unit {0})
  change f w = (
    ok tt,
    record w {
      session = record { working = f w.session.working; committed = w.session.committed };
    },
  )

  abbrev pub commit : Action env (Unit {0})
  commit w = (
    ok tt,
    record w { session = record { working = w.session.working; committed = w.session.working } },
  )

  abbrev pub rollback : Action env (Unit {0})
  rollback w = (
    ok tt,
    record w {
      session = record { working = w.session.committed; committed = w.session.committed };
    },
  )

module _ (env : Env) where
  abbrev pub run_commands : List Command → env.E → env.E
  run_commands cs e = foldl (λ s c. env.command c s) e cs

  -- `pipe.execute()`
  abbrev pub execute : List Command → Action env (Unit {0})
  execute cs = request env (λ e. (tt, run_commands cs e))

  -- `try: m` with `except Exception: pass`
  abbrev pub attempt : {A : Type 0} → Action env A → Action env (Unit {0})
  attempt m w = (ok tt, (m w).1)
