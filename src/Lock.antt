-- ===== src/Lock.antt =====
-- apps/core-api/src/redis/lock.py: a lock under one Redis key, whose value names its owner.
pub mod Rules
pub mod Laws
pub mod Ownership
pub mod Exclusion
use ticket_booking.Base.{
  ℕ, zero, suc, ◌*◌, min, Bool, true, false, not, Option, none, some, List, [], ◌∷◌, Text, text_eq,
  ltb, if◌then◌else◌,
}
use ticket_booking.Exceptions.{Result, ok, err, lock_acquire}
use ticket_booking.Env.{Env}
use ticket_booking.Action.{Action, World, ◌>>=◌, ◌>>◌, pure, external, request, raise_if}
use ticket_booking.Keys.{lock_reservation_key}

abbrev pub lock_ttl_ms : ℕ
lock_ttl_ms = 10_000

pub record RedisLock : Type 0 where
  pub key : Text
  pub ttl_ms : ℕ
  pub lock_value : Option Text

module _ (env : Env) where
  -- `RELEASE_SCRIPT`, which Redis runs as one step: it deletes the key only of the value's owner.
  unfoldable pub release_script : Text → Text → env.E → ℕ × env.E
  release_script key value e = elim (env.get key e) [
    | none ↦ (0, e)
    | some owner ↦ if text_eq owner value then env.del key e else (0, e)
  ]

  -- The wait between two attempts, which doubles up to a second; there is none after the last.
  unfoldable pub back_off : ℕ → ℕ → Action env ℕ
  back_off zero delay = pure delay
  back_off (suc left) delay =
      external env (λ e. (tt, env.sleep delay e)) >> pure (min (delay * 2) 1000)

  -- The attempts of `RedisLock.acquire` that are left.
  unfoldable pub attempts : ℕ → Text → Text → ℕ → ℕ → Action env Bool
  unfolding back_off
  attempts zero key value ttl delay = pure false
  attempts (suc left) key value ttl delay = do
    result ← request env (env.set_nx key value ttl)
    if result then pure true else (back_off left delay >>= attempts left key value ttl)

  -- `RedisLock.acquire`, with the lock as it leaves it.
  unfoldable pub acquire : RedisLock → ℕ → ℕ → Action env (Bool × RedisLock)
  unfolding attempts
  acquire lock retry retry_delay_ms = do
    owner ← external env env.uuid4
    let value = env.uuid_str owner
    acquired ← attempts retry lock.key value lock.ttl_ms retry_delay_ms
    pure (acquired, record lock { lock_value = some value })

  unfoldable pub release_value : RedisLock → Option Text → Action env (Bool × RedisLock)
  release_value lock none = pure (false, lock)
  release_value lock (some []) = pure (false, lock)
  release_value lock (some (c ∷ s)) = do
    result ← request env (release_script lock.key (c ∷ s))
    pure (ltb 0 result, record lock { lock_value = none })

  -- `RedisLock.release`
  unfoldable pub release : RedisLock → Action env (Bool × RedisLock)
  unfolding release_value
  release lock = release_value lock lock.lock_value

  found : Option Text → Bool
  found none = false
  found (some _) = true

  -- `RedisLock.is_locked`
  pub is_locked : RedisLock → Action env Bool
  unfolding found
  is_locked lock = request env (λ e. (found (env.get lock.key e), e))

  unfoldable pub acquire_reservation_lock : Text → ℕ → ℕ → Action env RedisLock
  acquire_reservation_lock event_id retry retry_delay_ms = do
    (acquired, lock) ←
        acquire
          (record { key = lock_reservation_key event_id; ttl_ms = lock_ttl_ms; lock_value = none })
          retry retry_delay_ms
    raise_if (not acquired) lock_acquire
    pure lock

  -- What leaves the `with` block: an exception of `finally` hides what the block returned.
  unfoldable pub settle :
      {A : Type 0} → Result A → Result (Bool × RedisLock) × World env → Result A × World env
  settle r (ok _, w) = (r, w)
  settle r (err e, w) = (err e, w)

  -- `with reservation_lock(r, event_id): body`
  unfoldable pub reservation_lock : {A : Type 0} → Text → Action env A → Action env A
  unfolding settle
  reservation_lock event_id body = do
    lock ← acquire_reservation_lock event_id 3 100
    λ w. let (r, w') = body w in settle r (release lock w')
