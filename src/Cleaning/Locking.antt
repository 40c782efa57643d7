-- ===== src/Cleaning/Locking.antt =====
-- A block under a lock that is free, on a quiet Redis.
use ticket_booking.Base.{
  ℕ, ◌≡◌, refl, sym, ◌∙◌, ap, subst, inl, inr, Bool, true, not, none, some, Text, text_eq,
  text_eq_iff, Bool-cases,
}
use ticket_booking.Exceptions.{ok, lock_acquire}
use ticket_booking.Env.{Env}
use ticket_booking.Action.{Action, World, ◌>>◌, pure, raise_if}
use ticket_booking.Action.Rules.{bind_result}
use ticket_booking.Keys.{lock_reservation_key}
use ticket_booking.Lock.{
  RedisLock, lock_ttl_ms, attempts, acquire, release, release_script, acquire_reservation_lock,
  settle, reservation_lock,
}
use ticket_booking.Lock.Laws.{attempts-free, attempts-free-world, release_script-owner}
use ticket_booking.Lock.Ownership.{release-written}
use ticket_booking.Cleaning.Quiet.{QuietLaws, SameLocks, AllFree}

module _ (env : Env) (laws : QuietLaws env) (event_id : Text) where
  abbrev key : Text
  key = lock_reservation_key event_id

  -- The lock as its owner has it.
  owned : ℕ → RedisLock
  owned u = record { key = key; ttl_ms = lock_ttl_ms; lock_value = some (env.uuid_str u) }

  abbrev owner : World env → ℕ
  owner w = (env.uuid4 w.outside).0

  -- The world in which the block runs.
  entry : World env → World env
  entry w = record w {
    outside =
        (env.set_nx key (env.uuid_str (owner w)) lock_ttl_ms
          (env.reach (env.uuid4 w.outside).1).1).1;
  }

  given : ℕ → Bool → Action env (Bool × RedisLock)
  given u b = pure (b, owned u)

  demand : Bool × RedisLock → Action env RedisLock
  demand (taken, lock) = do raise_if (not taken) lock_acquire; pure lock

  key_free :
      (w : World env) → AllFree env laws w.outside → env.get key (env.uuid4 w.outside).1 ≡ none
  key_free w free = laws.lock.get-uuid4 key w.outside ∙ free event_id

  acquired_free :
      (w : World env)
      → AllFree env laws w.outside
      → acquire_reservation_lock env event_id 3 100 w ≡ (ok (owned (owner w)), entry w)
  unfolding acquire_reservation_lock acquire owned entry given demand
  acquired_free w free =
      ap (λ x. bind_result demand (bind_result (given (owner w)) x)) {y = (ok true, entry w)}
        (λ i. (taken i, world i))
    where
      w1 : World env
      w1 = record w { outside = (env.uuid4 w.outside).1 }

      taken : (attempts env 3 key (env.uuid_str (owner w)) lock_ttl_ms 100 w1).0 ≡ ok true
      taken =
          (attempts-free env laws.lock 2 key (env.uuid_str (owner w)) lock_ttl_ms 100 w1
            (key_free w free)).0

      world : (attempts env 3 key (env.uuid_str (owner w)) lock_ttl_ms 100 w1).1 ≡ entry w
      world =
          attempts-free-world env laws.lock 2 key (env.uuid_str (owner w)) lock_ttl_ms 100 w1
            (key_free w free)

  -- The world after the lock is given back.
  exit : ℕ → World env → World env
  exit u w = record w {
    outside = (release_script env key (env.uuid_str u) (env.reach w.outside).1).1;
  }

  guarded : {A : Type 0} → Action env A → RedisLock → Action env A
  guarded body lock w = settle env (body w).0 (release env lock (body w).1)

  locked :
      {A : Type 0} (body : Action env A) (w : World env)
      → AllFree env laws w.outside
      → reservation_lock env event_id body w
        ≡ ((body (entry w)).0, exit (owner w) (body (entry w)).1)
  unfolding reservation_lock settle guarded owned exit
  locked body w free =
      ap (bind_result (guarded body)) (acquired_free w free)
      ∙ ap (settle env (body (entry w)).0)
          (release-written env laws.lock (owned (owner w)) (owner w) (body (entry w)).1)

  -- While the block runs, the key has the owner's value.
  key_owned :
      (w w2 : World env)
      → AllFree env laws w.outside
      → SameLocks env laws (entry w).outside w2.outside
      → env.get key (env.reach w2.outside).1 ≡ some (env.uuid_str (owner w))
  unfolding entry
  key_owned w w2 free same =
      laws.lock.get-reach key w2.outside
      ∙ same event_id
      ∙ (laws.lock.set_nx-free key _ lock_ttl_ms _ (laws.lock.get-reach key _ ∙ key_free w free)).1

  release_script-del :
      (v : Text) (e : env.E) → env.get key e ≡ some v → release_script env key v e ≡ env.del key e
  unfolding release_script
  release_script-del v e h = rw (release_script, h, (text_eq_iff v v).1 refl) refl

  exit-AllFree :
      (w w2 : World env)
      → AllFree env laws w.outside
      → SameLocks env laws (entry w).outside w2.outside
      → AllFree env laws (exit (owner w) w2).outside
  unfolding exit entry
  exit-AllFree w w2 free same event = elim (Bool-cases (text_eq key (lock_reservation_key event))) [
    | inl e ↦
        subst (λ k. env.get k (exit (owner w) w2).outside ≡ none)
          ((text_eq_iff key (lock_reservation_key event)).0 e)
          (release_script-owner env laws.lock key _ _ (key_owned w w2 free same)).1
    | inr e ↦
        ap (λ p. env.get (lock_reservation_key event) p.1)
          (release_script-del _ _ (key_owned w w2 free same))
        ∙ laws.del-other _ _ _ e
        ∙ laws.lock.get-reach _ _
        ∙ same event
        ∙ laws.set_nx-other _ _ _ _ _ e
        ∙ laws.lock.get-reach _ _
        ∙ laws.lock.get-uuid4 _ _
        ∙ free event
  ]

  pub reservation_lock-up :
      {A : Type 0} (body : Action env A) (w : World env)
      → AllFree env laws w.outside
      → ((w1 : World env)
          → w1.session ≡ w.session
          → SameLocks env laws w1.outside (body w1).1.outside)
      → let x = reservation_lock env event_id body w in
        AllFree env laws x.1.outside
        × ((w1 : World env) × (w1.session ≡ w.session)
            × (x.0 ≡ (body w1).0)
            × (x.1.session ≡ (body w1).1.session)
            × (w1.counters ≡ w.counters)
            × (x.1.counters ≡ (body w1).1.counters))
  unfolding entry exit
  reservation_lock-up body w free h = (
    subst (λ x. AllFree env laws x.1.outside) (sym (locked body w free))
        (exit-AllFree w (body (entry w)).1 free (h (entry w) refl)),
    (
      entry w,
      refl,
      ap (λ x. x.0) (locked body w free),
      ap (λ x. x.1.session) (locked body w free),
      refl,
      ap (λ x. x.1.counters) (locked body w free),
    ),
  )
