-- ===== src/Cleaning/Expiry.antt =====
-- That no expired hold and no hold of a user is left, where nothing fails.
use mathlib.Core.Bool.{false≢true}
use mathlib.Core.List.Permᴰ
use ticket_booking.Base.{
  ap, subst, sum, sum-perm, map, filter, In, ℕ, ◌≡◌, sym, ◌∙◌, inl, inr, Bool, true, false, some,
  List, Text, any, In-perm, In-filter, filter-In, In-any, any-In, &&-eq-true, ◌&&◌, ◌==◌,
  Bool-cases, ltb, arith,
}
use ticket_booking.Exceptions.{Result, ok, err}
use ticket_booking.Models.{Reservation, Tables, is_held}
use ticket_booking.Env.{Env}
use ticket_booking.Action.{World}
use ticket_booking.Action.Rules.{bind_result}
use ticket_booking.Repositories.Reads.{select, get_expired_held, get_held_by_user}
use ticket_booking.Reservations.Atomicity.{is_held-held}
use ticket_booking.Reservations.Release.{
  release_all, release_counted, release_expired_holds, release_user_holds,
}
use ticket_booking.Cleaning.Quiet.{QuietLaws}
use ticket_booking.Cleaning.Sizes.{size, with_key-selected}
use ticket_booking.Cleaning.Sweep.{IsReady, Swept, release_all-Swept}

module _ (env : Env) (laws : QuietLaws env) where
  -- The loop over the held reservations that a query finds leaves none that it would find.
  Swept-none :
      (p : Reservation → Bool) (w : World env) (x : Result (Unit {0}) × World env)
      → ((r : Reservation) → p r ≡ true → is_held r.status ≡ true)
      → Swept env laws (select env p w.session.working.reservations) w x
      → any p x.1.session.working.reservations ≡ false
  Swept-none p w x live q = elim (Bool-cases (any p x.1.session.working.reservations)) [
    | inr e ↦ e
    | inl e ↦
        let (r, m, h) = any-In p x.1.session.working.reservations e in
        let before = q.keeps r m (is_held-held env r.status (live r h)) in
        let found =
          In-perm r (Permᴰ.symm (env.order-perm Reservation _))
            (filter-In p r w.session.working.reservations before h) in
        absurd (
          false≢true (
            sym (q.clears r found)
            ∙ In-any (λ y. (y.reservation_id == r.reservation_id) && is_held y.status) r
                x.1.session.working.reservations m (itself r (live r h))))
  ]
    where
      itself :
          (r : Reservation)
          → is_held r.status ≡ true
          → ((r.reservation_id == r.reservation_id) && is_held r.status) ≡ true
      itself r h = ground (arith, h)

  -- The seats of the reservations that a query finds.
  abbrev pub seats_of : (Reservation → Bool) → Tables → ℕ
  seats_of p t = sum (map (size env t) (filter p t.reservations))

  counted :
      (p : Reservation → Bool) (n : ℕ) (x : Result (Unit {0}) × World env)
      → x.0 ≡ ok tt
      → x.1.counters.released ≡ n
      → any p x.1.session.committed.reservations ≡ false
      → let y = bind_result {env = env} (λ _ w'. (ok w'.counters.released, w')) x in
        (y.0 ≡ ok n) × (any p y.1.session.committed.reservations ≡ false)
  counted p n (ok _, w) h e none = (ap ok e, none)
  counted p n (err f, w) h e none = cc

  selected-clears :
      (p : Reservation → Bool) (w : World env)
      → ((r : Reservation) → p r ≡ true → is_held r.status ≡ true)
      → IsReady env laws w
      → let x = release_counted env (select env p w.session.working.reservations) w in
        (x.0 ≡ ok (seats_of p w.session.working))
        × (any p x.1.session.committed.reservations ≡ false)
  unfolding release_counted
  selected-clears p w live v =
      counted p (seats_of p w.session.working) _ swept.returns
        (omega (
          arith,
          swept.total,
          sum-perm (size env w.session.working) (env.order-perm Reservation _),
        ))
        (subst (λ t. any p t.reservations ≡ false) swept.clean (Swept-none p w1 _ live swept))
    where
      found : List Reservation
      found = select env p w.session.working.reservations

      is_found : (r : Reservation) → In r found → In r w.session.working.reservations × (p r ≡ true)
      is_found r m =
          In-filter p r w.session.working.reservations (In-perm r (env.order-perm Reservation _) m)

      w1 : World env
      w1 = record w { counters = record { duplicates = w.counters.duplicates; released = 0 } }

      swept : Swept env laws found w1 (release_all env false found w1)
      swept =
          release_all-Swept env laws false found w1
            (record { unique = v.unique; readable = v.readable; free = v.free; clean = v.clean })
            (record {
              stored = λ r m. (is_found r m).0;
              live = λ r m. live r (is_found r m).1;
              apart = λ k. omega (
                arith,
                v.unique k,
                with_key-selected k p w.session.working.reservations found
                    (env.order-perm Reservation _),
              );
            })

  -- Where Redis is up, keeps its promises of SET NX, GET and DEL and is used by nobody else,
  -- the locks of all events are free, the session has nothing uncommitted, no two
  -- reservations share a key and the seats of every held one can be read,
  -- release_expired_holds returns how many seats the held reservations that had expired at
  -- the instant that it read list, and the committed tables have no such reservation any
  -- more.
  pub release_expired_holds-clears :
      (w : World env)
      → IsReady env laws w
      → let x = release_expired_holds env w in
        (x.0
          ≡ ok (
              seats_of
                (λ r. is_held r.status && ltb r.expires_at (env.utcnow w.outside).0)
                w.session.working))
        × (any
              (λ r. is_held r.status && ltb r.expires_at (env.utcnow w.outside).0)
              x.1.session.committed.reservations
            ≡ false)
  unfolding release_expired_holds get_expired_held
  release_expired_holds-clears w v =
      selected-clears (λ r. is_held r.status && ltb r.expires_at (env.utcnow w.outside).0)
        (record w { outside = (env.utcnow w.outside).1 }) (λ r h. (&&-eq-true _ _ h).0)
        (record {
          unique = v.unique;
          readable = v.readable;
          free = λ event. laws.get-utcnow _ w.outside ∙ v.free event;
          clean = v.clean;
        })

  -- Where Redis is up, keeps its promises of SET NX, GET and DEL and is used by nobody else,
  -- the locks of all events are free, the session has nothing uncommitted, no two
  -- reservations share a key and the seats of every held one can be read, release_user_holds
  -- for the text of an identifier returns how many seats the held reservations of that user
  -- list, and the committed tables have no such reservation any more.
  pub release_user_holds-clears :
      (user_id : Text) (user : ℕ) (w : World env)
      → env.uuid_parse user_id ≡ some user
      → IsReady env laws w
      → let x = release_user_holds env user_id w in
        (x.0 ≡ ok (seats_of (λ r. (r.user_id == user) && is_held r.status) w.session.working))
        × (any (λ r. (r.user_id == user) && is_held r.status) x.1.session.committed.reservations
            ≡ false)
  unfolding release_user_holds get_held_by_user
  release_user_holds-clears user_id user w e v = rw e (
      selected-clears (λ r. (r.user_id == user) && is_held r.status) w (λ r h. (&&-eq-true _ _ h).1)
        v)
