-- ===== src/Lock/Rules.antt =====
-- What a block under the reservation lock does to the request's database session.
use ticket_booking.Base.{
  ℕ, zero, suc, ◌≡◌, refl, ◌⊎◌, inl, inr, Bool, true, false, Text, arith, if◌then◌else◌, not, none,
  sym, ap,
}
use ticket_booking.Exceptions.{Error, Result, ok, err, lock_acquire}
use ticket_booking.Env.{Env}
use ticket_booking.Action.Rules.{Outside, bind_result, Outside-bind, request-Outside}
use ticket_booking.Action.{Action, World, ◌>>=◌, ◌>>◌, pure, request, raise_if}
use ticket_booking.Keys.{lock_reservation_key}
use ticket_booking.Lock.{
  RedisLock, lock_ttl_ms, attempts, back_off, acquire, release, release_value,
  acquire_reservation_lock, settle, reservation_lock,
}

module _ (env : Env) where
  back_off-Outside : (n delay : ℕ) (w : World env) → Outside w (back_off env n delay w).1
  unfolding back_off
  back_off-Outside zero delay w = (refl, refl)
  back_off-Outside (suc n) delay w = (refl, refl)

  choose-Outside :
      (b : Bool) (m : Action env Bool) (w : World env)
      → Outside w (m w).1
      → Outside w ((if b then pure true else m) w).1
  choose-Outside true m w h = (refl, refl)
  choose-Outside false m w h = h

  attempts-Outside :
      (n : ℕ) (key value : Text) (ttl delay : ℕ) (w : World env)
      → Outside w (attempts env n key value ttl delay w).1
  unfolding attempts
  attempts-Outside zero key value ttl delay w = (refl, refl)
  attempts-Outside (suc n) key value ttl delay w =
      Outside-bind (request env (env.set_nx key value ttl)) (λ b. if b then pure true else later) w
        (request-Outside env (env.set_nx key value ttl) w)
        (λ b w'. choose-Outside b later w' (later-Outside (attempts-Outside n key value ttl) w'))
    where
      later : Action env Bool
      later = back_off env n delay >>= attempts env n key value ttl

      later-Outside :
          ((d : ℕ) (w' : World env) → Outside w' (attempts env n key value ttl d w').1)
          → (w' : World env) → Outside w' (later w').1
      later-Outside rest w' =
          Outside-bind (back_off env n delay) (attempts env n key value ttl) w'
            (back_off-Outside n delay w') rest

  acquire-Outside :
      (lock : RedisLock) (n d : ℕ) (w : World env) → Outside w (acquire env lock n d w).1
  unfolding acquire
  acquire-Outside lock n d w = ground (
    arith,
    attempts-Outside n lock.key (env.uuid_str (env.uuid4 w.outside).0) lock.ttl_ms d
        (record w { outside = (env.uuid4 w.outside).1 }),
  )

  release-Outside : (l : RedisLock) (w : World env) → Outside w (release env l w).1
  unfolding release release_value
  release-Outside l w = ground arith

  -- The lock of an event as `acquire_reservation_lock` makes it.
  abbrev pub lock_of : Text → RedisLock
  lock_of event_id = record {
    key = lock_reservation_key event_id;
    ttl_ms = lock_ttl_ms;
    lock_value = none;
  }

  -- What the call returns, after what the block and the release of the lock return.
  abbrev pub Returns : {A : Type 0} → Result A → Result A → Result (Bool × RedisLock) → Type 0
  Returns r b (ok _) = r ≡ b
  Returns r b (err e) = r ≡ err e

  -- Either the lock is not acquired in three attempts, the call raises and the block is not run; or
  -- it is acquired, the block is run once, right after that and on the session of the call, the lock
  -- is released right after the block, however that has ended, and nothing else is done.
  pub data Locked {A : Type 0} (event_id : Text) (body : Action env A) (w : World env)
      (r : Result A × World env) : Type 0 where
    refused :
        (e : Error)
        → ((acquire env (lock_of event_id) 3 100 w).0 ≡ err e)
          ⊎ ((lock : RedisLock) × ((acquire env (lock_of event_id) 3 100 w).0 ≡ ok (false, lock))
              × (e ≡ lock_acquire))
        → r ≡ (err e, (acquire env (lock_of event_id) 3 100 w).1)
        → Outside w r.1
        → Locked event_id body w r
    entered :
        (lock : RedisLock) (w' : World env)
        → acquire env (lock_of event_id) 3 100 w ≡ (ok (true, lock), w')
        → Outside w w'
        → r.1 ≡ (release env lock (body w').1).1
        → Returns r.0 (body w').0 (release env lock (body w').1).0
        → Outside (body w').1 r.1
        → (r.0 ≡ (body w').0) ⊎ ((e : Error) × (r.0 ≡ err e))
        → Locked event_id body w r

  settle-Locked :
      {A : Type 0} (event_id : Text) (body : Action env A) (w w' : World env) (lock : RedisLock)
      → acquire env (lock_of event_id) 3 100 w ≡ (ok (true, lock), w')
      → Outside w w'
      → (x : Result (Bool × RedisLock) × World env) → release env lock (body w').1 ≡ x
      → Outside (body w').1 x.1
      → Locked event_id body w (settle env (body w').0 x)
  unfolding settle
  settle-Locked event_id body w w' lock a h (ok y, w3) b k =
      entered lock w' a h (sym (ap (λ z. z.1) b)) (rw (ap (λ z. z.0) b) refl) k (inl refl)
  settle-Locked event_id body w w' lock a h (err e, w3) b k =
      entered lock w' a h (sym (ap (λ z. z.1) b)) (rw (ap (λ z. z.0) b) refl) k (inr (e, refl))

  guarded : {A : Type 0} → Action env A → RedisLock → Action env A
  guarded body lock w = settle env (body w).0 (release env lock (body w).1)

  demand : Bool × RedisLock → Action env RedisLock
  demand (taken, lock) = do raise_if (not taken) lock_acquire; pure lock

  -- A block under the reservation lock is run only after an acquisition that took the key of
  -- the event, and at once, on the session of the call; the lock is released right after it,
  -- however it ends, and nothing else is done. Where three attempts do not take the key the
  -- block is not run, and the call raises what the acquisition raised or LockAcquireError.
  pub reservation_lock-Locked :
      {A : Type 0} (event_id : Text) (body : Action env A) (w : World env)
      → Locked event_id body w (reservation_lock env event_id body w)
  unfolding reservation_lock guarded acquire_reservation_lock demand
  reservation_lock-Locked {A} event_id body w =
      acquired (acquire env (lock_of event_id) 3 100 w) refl
        (acquire-Outside (lock_of event_id) 3 100 w)
    where
      acquired :
          (x : Result (Bool × RedisLock) × World env)
          → acquire env (lock_of event_id) 3 100 w ≡ x
          → Outside w x.1
          → Locked event_id body w (bind_result (guarded body) (bind_result demand x))
      acquired (ok (true, lock), w') a h =
          settle-Locked event_id body w w' lock a h (release env lock (body w').1) refl
            (release-Outside lock (body w').1)
      acquired (ok (false, lock), w') a h =
          refused lock_acquire (inr (lock, ap (λ z. z.0) a, refl))
            (ap (λ z. (err lock_acquire, z.1)) (sym a)) h
      acquired (err e, w') a h =
          refused e (inl (ap (λ z. z.0) a)) (ap (λ z. (err e, z.1)) (sym a)) h
