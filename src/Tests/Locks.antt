-- ===== src/Tests/Locks.antt =====
-- The theorems on the lock, applied to two processes.
use ticket_booking.Base.{
  ℕ, ◌≡◌, ◌≢◌, refl, sym, ap, subst, inl, inr, true, false, Option, none, some, List, [], ◌∷◌, Text,
  text_eq, text_eq_iff, arith, any, In, ltb, ◌&&◌, ◌==◌, Bool-cases, if◌then◌else◌,
}
use ticket_booking.Models.{Reservation, is_held}
use ticket_booking.Reservations.Common.{parse_all}
use ticket_booking.Reservations.Release.{release_expired_holds, release_user_holds}
use ticket_booking.Cleaning.Quiet.{QuietLaws}
use ticket_booking.Cleaning.Sweep.{IsReady}
use ticket_booking.Cleaning.Expiry.{release_expired_holds-clears, release_user_holds-clears}
use ticket_booking.Exceptions.{ok, err, lock_acquire}
use ticket_booking.Action.{World, pure}
use ticket_booking.Keys.{lock_reservation_key}
use ticket_booking.Lock.{RedisLock, release_script, acquire, reservation_lock}
use ticket_booking.Lock.Laws.{LockLaws, after}
use ticket_booking.Lock.Ownership.{reservation_lock-taken}
use ticket_booking.Lock.Exclusion.{
  Crowd, put_at, enters, Reached, opens, turns, exclusive, acquire_when_empty,
}
use ticket_booking.Tests.Local.{
  Machine, lookup, erase, set_new, at_time, empty_tables, booked_tables,
}
use ticket_booking.Tests.Devices.{steady_env}
use ticket_booking.Tests.Lookups.{lookup-erase, same_text}

lock_laws : LockLaws steady_env
lock_laws = record {
  up = λ e. refl;
  get-reach = λ k e. refl;
  get-sleep = λ k ms e. refl;
  get-uuid4 = λ k e. refl;
  set_nx-free = λ k v ttl e h. rw h (refl, rw (same_text k) refl);
  set_nx-taken = λ k v u ttl e h. rw h refl;
  del-taken = λ k u e h. (refl, lookup-erase k e.entries);
  written = λ u. (u, [], refl);
}

abbrev gate : RedisLock
gate = record { key = 5 ∷ []; ttl_ms = 10_000; lock_value = none }

abbrev quiet : World steady_env
quiet = record {
  session = record { working = empty_tables; committed = empty_tables };
  outside = at_time 0;
  counters = record { duplicates = 0; released = 0 };
}

abbrev busy_event : World steady_env
busy_event = record quiet {
  outside = record (at_time 0) { entries = (lock_reservation_key (9 ∷ []), 7 ∷ []) ∷ [] };
}

reservation_lock-taken_example : reservation_lock steady_env (9 ∷ []) (pure gate) busy_event ≡ (
  err lock_acquire,
  record busy_event {
    outside = after steady_env lock_laws (100 ∷ 200 ∷ []) (steady_env.uuid4 busy_event.outside).1;
  },
)
reservation_lock-taken_example =
    reservation_lock-taken steady_env lock_laws (9 ∷ []) (7 ∷ []) (pure gate) busy_event
      (rw (same_text (lock_reservation_key (9 ∷ []))) refl)

abbrev one_inside : Crowd steady_env
one_inside = record {
  outside = (steady_env.set_nx (5 ∷ []) (8 ∷ []) 10_000 (at_time 0)).1;
  inside = put_at 1 (some (8 ∷ [])) (λ _. none);
}

one_inside-Reached : Reached steady_env (5 ∷ []) 10_000 one_inside
one_inside-Reached = turns (opens (at_time 0) refl) (enters 1 (8 ∷ []) refl refl)

exclusive_example :
    ◌≡◌ {A = ℕ} 1 1
    × (steady_env.get (5 ∷ []) one_inside.outside ≡ some (8 ∷ []))
    × ((value : Text) × ((acquire steady_env gate 3 100
            (record quiet { outside = one_inside.outside })).0
          ≡ ok (false, record gate { lock_value = some value })))
    × (release_script steady_env (5 ∷ []) (7 ∷ []) one_inside.outside ≡ (0, one_inside.outside))
    × ((release_script steady_env (5 ∷ []) (8 ∷ []) one_inside.outside).0 ≡ 1)
    × (steady_env.get (5 ∷ []) (release_script steady_env (5 ∷ []) (8 ∷ []) one_inside.outside).1
        ≡ none)
exclusive_example =
    exclusive steady_env (5 ∷ []) 10_000 lock_laws 1 1 (8 ∷ []) (8 ∷ []) (7 ∷ []) 2 100 quiet
      one_inside-Reached refl refl refl

acquire_when_empty_example :
    (value : Text) × ((acquire steady_env gate 3 100 quiet).0
      ≡ ok (true, record gate { lock_value = some value }))
    × (steady_env.get (5 ∷ []) (acquire steady_env gate 3 100 quiet).1.outside ≡ some value)
acquire_when_empty_example =
    acquire_when_empty steady_env (5 ∷ []) 10_000 lock_laws gate 2 100 quiet
      (opens (at_time 0) refl) (λ i. refl) refl refl

lookup-erase-other :
    (j k : Text) (es : List (Text × Text))
    → text_eq k j ≡ false
    → lookup j (erase k es) ≡ lookup j es
lookup-erase-other j k [] h = refl
lookup-erase-other j k ((i, v) ∷ es) h = elim (Bool-cases (text_eq i k)) [
  | inl e ↦
      rw (e, subst (λ x. text_eq x j ≡ false) (sym ((text_eq_iff i k).0 e)) h)
        (lookup-erase-other j k es h)
  | inr e ↦ rw e (ap (λ x. if text_eq i j then some v else x) (lookup-erase-other j k es h))
]

lookup-set_new :
    (j k v : Text) (m : Machine) (found : Option Text)
    → text_eq k j ≡ false
    → lookup j (set_new k v m found).1.entries ≡ lookup j m.entries
lookup-set_new j k v m none h = rw h refl
lookup-set_new j k v m (some u) h = refl

other_text : (j k : Text) → j ≢ k → text_eq k j ≡ false
other_text j k h = elim (Bool-cases (text_eq k j)) [
  | inl e ↦ absurd (h (sym ((text_eq_iff k j).0 e)))
  | inr e ↦ e
]

quiet_laws : QuietLaws steady_env
quiet_laws = record {
  lock = lock_laws;
  get-utcnow = λ k e. refl;
  set_nx-other = λ j k v ttl e h. lookup-set_new j k v e (lookup k e.entries) h;
  del-other = λ j k e h. lookup-erase-other j k e.entries h;
  delete-other = λ j k e h. lookup-erase-other j k e.entries (other_text j k h);
  get-publish = λ k c u e. refl;
}

-- Alice's hold has expired.
abbrev late : World steady_env
late = record quiet {
  session = record { working = booked_tables; committed = booked_tables };
  outside = at_time 400_000_000;
}

booking_readable :
    (r : Reservation)
    → In r booked_tables.reservations
    → (ids : List ℕ) × (parse_all steady_env r.seat_ids ≡ some ids)
unfolding parse_all
booking_readable r (inl e) =
    subst (λ x. (ids : List ℕ) × (parse_all steady_env x.seat_ids ≡ some ids)) e
      (21 ∷ 23 ∷ [], refl)
booking_readable r (inr m) = absurd m

late-IsReady : IsReady steady_env quiet_laws late
late-IsReady = record {
  unique = λ k. ground arith;
  readable = λ r m h. booking_readable r m;
  free = λ event. refl;
  clean = refl;
}

release_expired_holds-clears_example :
    let x = release_expired_holds steady_env late in
    (x.0 ≡ ok 2)
    × (any
          (λ r. is_held r.status && ltb r.expires_at 400_000_000)
          x.1.session.committed.reservations
        ≡ false)
unfolding parse_all
release_expired_holds-clears_example =
    release_expired_holds-clears steady_env quiet_laws late late-IsReady

release_user_holds-clears_example :
    let x = release_user_holds steady_env (1 ∷ []) late in
    (x.0 ≡ ok 2)
    × (any (λ r. (r.user_id == 1) && is_held r.status) x.1.session.committed.reservations ≡ false)
unfolding parse_all
release_user_holds-clears_example =
    release_user_holds-clears steady_env quiet_laws (1 ∷ []) 1 late refl late-IsReady
