-- ===== src/Lock/Ownership.antt =====
-- Who gets the lock, who is refused, and whose release counts.
use ticket_booking.Base.{
  ℕ, not, suc, ltb, ◌≢◌, inl, inr, Bool-cases, text_eq_iff, ◌≡◌, sym, ◌∙◌, ap, Bool, true, false,
  none, some, [], ◌∷◌, Text, text_eq,
}
use ticket_booking.Exceptions.{Result, ok, err, lock_acquire}
use ticket_booking.Env.{Env}
use ticket_booking.Action.{Action, World, ◌>>◌, pure, raise_if}
use ticket_booking.Action.Rules.{bind_result, request-up}
use ticket_booking.Keys.{lock_reservation_key}
use ticket_booking.Lock.{
  RedisLock, lock_ttl_ms, release_script, attempts, acquire, release_value, release,
  acquire_reservation_lock, reservation_lock, settle,
}
use ticket_booking.Lock.Laws.{
  LockLaws, release_script-owner, attempts-free, attempts-taken, waits, after,
}

module _ (env : Env) (laws : LockLaws env) where
  some-inj : {a b : ℕ} → some a ≡ some b → a ≡ b
  some-inj {a} {b} h = cc

  acquired : RedisLock → Text → Result Bool × World env → Result (Bool × RedisLock) × World env
  acquired lock value = bind_result (λ b. pure (b, record lock { lock_value = some value }))

  acquired-lem :
      (lock : RedisLock) (value : Text) (x : Result Bool × World env) (b : Bool)
      → x.0 ≡ ok b
      → acquired lock value x ≡ (ok (b, record lock { lock_value = some value }), x.1)
  unfolding acquired
  acquired-lem lock value (ok c, w) b h =
      ap (λ z. (ok (z, record lock { lock_value = some value }), w)) {x = c} {y = b} (cc)
  acquired-lem lock value (err e, w) b h = cc

  -- Different UUIDs are written differently.
  differs : (u v : ℕ) → u ≢ v → text_eq (env.uuid_str v) (env.uuid_str u) ≡ false
  differs u v other = elim (Bool-cases (text_eq (env.uuid_str v) (env.uuid_str u))) [
    | inr e ↦ e
    | inl e ↦ absurd (
        other (
          some-inj (
            sym (env.uuid_parse-uuid_str u)
            ∙ ap env.uuid_parse (sym ((text_eq_iff (env.uuid_str v) (env.uuid_str u)).0 e))
            ∙ env.uuid_parse-uuid_str v)))
  ]

  -- The script with an owner's text, which is not empty.
  pub release-written :
      (lock : RedisLock) (u : ℕ) (w : World env)
      → release env (record lock { lock_value = some (env.uuid_str u) }) w ≡ (
        ok (
          ltb 0 (release_script env lock.key (env.uuid_str u) (env.reach w.outside).1).0,
          record lock { lock_value = none },
        ),
        record w {
          outside = (release_script env lock.key (env.uuid_str u) (env.reach w.outside).1).1;
        },
      )
  unfolding release release_value
  release-written lock u w =
      let (c, s, e) = laws.written u in
      rw e (
        ap
          (bind_result {env = env}
            (λ result. pure (ltb 0 result, record lock { lock_value = none })))
          (request-up env (release_script env lock.key (c ∷ s)) w (laws.up w.outside)))

  -- Where Redis keeps its promises and the key is free, an acquisition with at least one
  -- attempt gets the key under a value of its own, and a release by that owner, while the key
  -- has the value, frees it and says so.
  pub acquire-release :
      (lock : RedisLock) (n d : ℕ) (w : World env)
      → env.get lock.key w.outside ≡ none
      → (value : Text) × ((acquire env lock (suc n) d w).0
          ≡ ok (true, record lock { lock_value = some value }))
        × (env.get lock.key (acquire env lock (suc n) d w).1.outside ≡ some value)
        × ((w' : World env)
            → env.get lock.key w'.outside ≡ some value
            → let x = release env (record lock { lock_value = some value }) w' in
              (x.0 ≡ ok (true, record lock { lock_value = none }))
              × (env.get lock.key x.1.outside ≡ none))
  unfolding acquire acquired
  acquire-release lock n d w h =
      let u = (env.uuid4 w.outside).0 in
      let w1 : World env = record w { outside = (env.uuid4 w.outside).1 } in
      let (taken, kept) =
        attempts-free env laws n lock.key (env.uuid_str u) lock.ttl_ms d w1
          (laws.get-uuid4 lock.key w.outside ∙ h) in
      let same =
        acquired-lem lock (env.uuid_str u)
          (attempts env (suc n) lock.key (env.uuid_str u) lock.ttl_ms d w1) true taken in
      (
        env.uuid_str u,
        ap (λ x. x.0) same,
        ap (λ x. env.get lock.key x.1.outside) same ∙ kept,
        λ w' held.
            let (gone, free) =
              release_script-owner env laws lock.key (env.uuid_str u) (env.reach w'.outside).1
                (laws.get-reach lock.key w'.outside ∙ held) in
            (
              ap (λ x. x.0) (release-written lock u w')
                  ∙ ap (λ z. ok (ltb 0 z, record lock { lock_value = none })) gone,
              ap (λ x. env.get lock.key x.1.outside) (release-written lock u w') ∙ free,
            ),
      )

  -- An acquisition of a key that another has.
  pub acquire-taken :
      (lock : RedisLock) (n d : ℕ) (u : Text) (w : World env)
      → env.get lock.key w.outside ≡ some u
      → acquire env lock (suc n) d w ≡ (
        ok (false, record lock { lock_value = some (env.uuid_str (env.uuid4 w.outside).0) }),
        record w { outside = after env laws (waits env laws (suc n) d) (env.uuid4 w.outside).1 },
      )
  unfolding acquire acquired
  acquire-taken lock n d u w h = ap (acquired lock (env.uuid_str (env.uuid4 w.outside).0)) (
      attempts-taken env laws n lock.key (env.uuid_str (env.uuid4 w.outside).0) u lock.ttl_ms d
        (record w { outside = (env.uuid4 w.outside).1 }) (laws.get-uuid4 lock.key w.outside ∙ h))

  demand : Bool × RedisLock → Action env RedisLock
  demand (acquired, lock) = do raise_if (not acquired) lock_acquire; pure lock

  guarded : {A : Type 0} → Action env A → RedisLock → Action env A
  guarded body lock w = settle env (body w).0 (release env lock (body w).1)

  -- Where another has the lock of the event and keeps it, reservation_lock ends after three
  -- attempts and two waits, of 100 and 200 ms, with LockAcquireError, and the block is not
  -- run.
  pub reservation_lock-taken :
      {A : Type 0} (event_id u : Text) (body : Action env A) (w : World env)
      → env.get (lock_reservation_key event_id) w.outside ≡ some u
      → reservation_lock env event_id body w ≡ (
        err lock_acquire,
        record w { outside = after env laws (100 ∷ 200 ∷ []) (env.uuid4 w.outside).1 },
      )
  unfolding reservation_lock acquire_reservation_lock demand guarded
  reservation_lock-taken event_id u body w h =
      ap (λ x. bind_result (guarded body) (bind_result demand x))
        (acquire-taken
          (record { key = lock_reservation_key event_id; ttl_ms = lock_ttl_ms; lock_value = none })
          2 100 u w h)
