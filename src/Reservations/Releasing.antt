-- ===== src/Reservations/Releasing.antt =====
-- What the loops of `release_expired_holds` and `release_user_holds` do in each round and over all.
use ticket_booking.Base.{
  ℕ, ◌≡◌, refl, sym, ◌∙◌, ap, subst, inl, inr, ◌⊎◌, Bool, true, false, ◌||◌, some, List, [], ◌∷◌,
  Text, length, arith, In, In-perm, In-filter, Bool-cases, Option-cases,
}
use ticket_booking.Exceptions.{Result, ok, err, object_deleted}
use ticket_booking.Models.{Seat, available, cancelled, Reservation, held, is_held, Tables}
use ticket_booking.Env.{Env}
use ticket_booking.Action.{Session, World, Action, ◌>>=◌, ◌>>◌, pure}
use ticket_booking.Action.Rules.{bind_result}
use ticket_booking.Lock.Rules.{Locked, refused, entered, reservation_lock-Locked}
use ticket_booking.Repositories.Reads.{
  select, get_reservation_by_id, get_expired_held, get_held_by_user,
}
use ticket_booking.Reservations.Common.{parse_all}
use ticket_booking.Reservations.Release.{
  count_released, recover, release_fresh, release_block, release_one, load, release_all,
  release_counted, release_expired_holds, release_user_holds,
}
use ticket_booking.Reservations.Effects.{saved, Finished, unread, written, finish-Finished}
use ticket_booking.Reservations.Ending.{ended, finish_tables-eq-ended, get_reservation_by_id-In}
use ticket_booking.Reservations.Booking.{IsConsistent}
use ticket_booking.Reservations.Atomicity.{is_held-held}
use ticket_booking.Reservations.Steadiness.{IsSteady, saved-IsSteady, stored-IsConsistent}

module _ (env : Env) where
  -- The reservation, as it was loaded, was held, and it and its seats are released in the tables.
  abbrev pub Releases : Reservation → Session → Session → Type 0
  Releases r s s' =
      (ids : List ℕ) × (r.status ≡ held)
      × (parse_all env r.seat_ids ≡ some ids)
      × (s' ≡ saved (ended available cancelled ids r.reservation_id s.working))

  -- A block has left the session, or has released the reservation and says so if it returns.
  Blocked : Reservation → Session → Result Bool × World env → Type 0
  Blocked r s x =
      (x.1.session ≡ s) ⊎ (Releases r s x.1.session × ((b : Bool) → x.0 ≡ ok b → b ≡ true))

  -- A round returns whether the objects of the session have expired, which they have if it wrote.
  pub data Round (r : Reservation) (s : Session) (x : Result Bool × World env) : Type 0 where
    kept : (b : Bool) → x.0 ≡ ok b → x.1.session ≡ s → Round r s x
    released : x.0 ≡ ok true → Releases r s x.1.session → Round r s x

  counted : List Seat → Action env Bool
  counted seats = count_released env (length seats) >> pure true

  Finished-Blocked :
      (r : Reservation) (w : World env) (x : Result (List Seat) × World env)
      → r.status ≡ held
      → Finished env available cancelled r w x
      → Blocked r w.session (bind_result counted x)
  unfolding counted Blocked
  Finished-Blocked r w (ok seats, w') h (unread e s) = inl s
  Finished-Blocked r w (err f, w') h (unread e s) = inl s
  Finished-Blocked r w (ok seats, w') h (written ids e s q) = inr (
    (
      ids,
      h,
      e,
      s
          ∙ ap saved (
              finish_tables-eq-ended env available cancelled ids r.reservation_id
                w.session.working),
    ),
    λ b k. ground arith,
  )
  Finished-Blocked r w (err f, w') h (written ids e s q) = inr (
    (
      ids,
      h,
      e,
      s
          ∙ ap saved (
              finish_tables-eq-ended env available cancelled ids r.reservation_id
                w.session.working),
    ),
    λ b k. cc,
  )

  release_block-Blocked :
      (event_id : Text) (r : Reservation) (w : World env)
      → Blocked r w.session (release_block env event_id r w)
  unfolding release_block release_fresh counted Blocked
  release_block-Blocked event_id r w =
      elim (Option-cases (get_reservation_by_id env r.reservation_id w.session.working)) [
        | inl e ↦ rw e (inl refl)
        | inr (row, e) ↦ elim (Bool-cases (is_held r.status)) [
          | inr f ↦ rw (e, f) (inl refl)
          | inl f ↦
              rw (e, f)
                (Finished-Blocked r w _ (is_held-held env r.status f)
                  (finish-Finished env event_id r available cancelled w))
        ]
      ]

  Locked-Blocked :
      (event_id : Text) (r : Reservation) (w : World env) (x : Result Bool × World env)
      → Locked env event_id (release_block env event_id r) w x
      → Blocked r w.session x
  unfolding Blocked
  Locked-Blocked event_id r w x (refused e why h o) = inl o.0
  Locked-Blocked event_id r w x (entered lock w' took same gave returns out res) =
      elim (release_block-Blocked event_id r w') [
        | inl k ↦ inl (out.0 ∙ k ∙ same.0)
        | inr ((ids, h, p, s), says) ↦ inr (
          (
            ids,
            h,
            p,
            out.0
                ∙ s
                ∙ ap (λ z. saved (ended available cancelled ids r.reservation_id z.working)) same.0,
          ),
          λ b k. elim res [ inl q ↦ says b (sym q ∙ k) | inr (f, q) ↦ cc ],
        )
      ]

  recover-Round :
      (r : Reservation) (s : Session) (x : Result Bool × World env)
      → s.working ≡ s.committed
      → Blocked r s x
      → Round r s (recover env x)
  unfolding recover Blocked
  recover-Round r s (ok b, w) clean (inl h) = kept b refl h
  recover-Round r s (ok b, w) clean (inr (h, says)) = released (ap ok (says b refl)) h
  recover-Round r s (err e, w) clean (inl h) = kept true refl (
      ap (λ z. let y : Session = record { working = z.committed; committed = z.committed } in y) h
      ∙ ap (λ t. let y : Session = record { working = t; committed = s.committed } in y)
          (sym clean))
  recover-Round r s (err e, w) clean (inr ((ids, h, p, q), says)) = released refl (
    ids,
    h,
    p,
    ap (λ z. let y : Session = record { working = z.committed; committed = z.committed } in y) q,
  )

  pub release_one-Round :
      (r : Reservation) (w : World env)
      → w.session.working ≡ w.session.committed
      → Round r w.session (release_one env r w)
  unfolding release_one
  release_one-Round r w clean = recover-Round r w.session _ clean (
      Locked-Blocked (env.uuid_str r.event_id) r w _ (
        reservation_lock-Locked env (env.uuid_str r.event_id)
          (release_block env (env.uuid_str r.event_id) r) w))

  -- The objects of the rounds that are left, if they have not expired, are as their rows.
  abbrev pub IsLoaded : Bool → List Reservation → Tables → Type 0
  IsLoaded expired rs t = expired ≡ false → (r : Reservation) → In r rs → In r t.reservations

  load-cases :
      (expired : Bool) (r : Reservation) (w : World env)
      → (expired ≡ false → In r w.session.working.reservations)
      → (load env expired r w ≡ (err object_deleted, w))
        ⊎ ((r' : Reservation) × (load env expired r w ≡ (ok r', w))
            × In r' w.session.working.reservations)
  unfolding load
  load-cases false r w h = inr (r, refl, h refl)
  load-cases true r w h =
      elim (Option-cases (get_reservation_by_id env r.reservation_id w.session.working)) [
        | inl e ↦ inl (rw e refl)
        | inr (r', e) ↦ inr (
          r',
          rw e refl,
          (get_reservation_by_id-In env r.reservation_id w.session.working r' e).0,
        )
      ]

  -- What the loop keeps, from session to session, and each release of a stored reservation keeps.
  module _ (P : Session → Session → Type 0) (stay : (s : Session) → P s s)
      (join : (s s' s'' : Session) → P s s' → P s' s'' → P s s'')
      (clean : (s s' : Session) → P s s' → s.working ≡ s.committed → s'.working ≡ s'.committed)
      (step : (r : Reservation) (s s' : Session)
        → s.working ≡ s.committed
        → In r s.working.reservations
        → Releases r s s'
        → P s s') where
    one_step :
        (r : Reservation) (w : World env) (x : Result Bool × World env)
        → w.session.working ≡ w.session.committed
        → In r w.session.working.reservations
        → Round r w.session x
        → P w.session x.1.session
    one_step r w x c m (kept b h s) = subst (P w.session) (sym s) (stay w.session)
    one_step r w x c m (released h q) = step r w.session x.1.session c m q

    Round-IsLoaded :
        (expired : Bool) (r r' : Reservation) (rs : List Reservation) (b : Bool) (s : Session)
        (x : Result Bool × World env)
        → IsLoaded expired (r ∷ rs) s.working
        → x.0 ≡ ok b
        → Round r' s x
        → IsLoaded (expired || b) rs x.1.session.working
    Round-IsLoaded expired r r' rs b s x l e (kept b' h q) =
        λ f a m. subst (λ z. In a z.working.reservations) (sym q) (l (ground (arith, f)) a (inr m))
    Round-IsLoaded expired r r' rs b s x l e (released h q) =
        λ f a m. absurd (ground (arith, f, h, e))

    pub release_all-keeps :
        (expired : Bool) (rs : List Reservation) (w : World env)
        → w.session.working ≡ w.session.committed
        → IsLoaded expired rs w.session.working
        → P w.session (release_all env expired rs w).1.session
    unfolding release_all
    release_all-keeps expired [] w c l = stay w.session
    release_all-keeps expired (r ∷ rs) w c l =
        elim (load-cases expired r w (λ f. l f r (inl refl))) [
          | inl e ↦ from e (stay w.session)
          | inr (r', e, m) ↦ from e (
              go r' m (release_one env r' w) (release_one-Round r' w c)
                (λ b. release_all-keeps (expired || b) rs))
        ]
      where
        turn : Reservation → Action env (Unit {0})
        turn r' = release_one env r' >>= λ b. release_all env (expired || b) rs

        from :
            {x : Result Reservation × World env}
            → load env expired r w ≡ x
            → P w.session (bind_result turn x).1.session
            → P w.session (bind_result turn (load env expired r w)).1.session
        from e h = subst (λ x. P w.session (bind_result turn x).1.session) (sym e) h

        go :
            (r' : Reservation)
            → In r' w.session.working.reservations
            → (x : Result Bool × World env) → Round r' w.session x
            → ((b : Bool) (w' : World env)
                → w'.session.working ≡ w'.session.committed
                → IsLoaded (expired || b) rs w'.session.working
                → P w'.session (release_all env (expired || b) rs w').1.session)
            → P w.session (bind_result (λ b. release_all env (expired || b) rs) x).1.session
        go r' m (ok b, w') q rest =
            let moved = one_step r' w (ok b, w') c m q in
            join w.session w'.session _ moved (
              rest b w' (clean w.session w'.session moved c)
                (Round-IsLoaded expired r r' rs b w.session (ok b, w') l refl q))
        go r' m (err f, w') q rest = one_step r' w (err f, w') c m q

    counted-session :
        (x : Result (Unit {0}) × World env)
        → (bind_result {env = env} (λ _ w'. (ok w'.counters.released, w')) x).1.session
          ≡ x.1.session
    counted-session (ok _, w) = refl
    counted-session (err e, w) = refl

    pub release_selected-keeps :
        (p : Reservation → Bool) (w : World env)
        → w.session.working ≡ w.session.committed
        → P w.session
            (release_counted env (select env p w.session.working.reservations) w).1.session
    unfolding release_counted
    release_selected-keeps p w c = subst (P w.session) (sym (counted-session _)) (
        release_all-keeps false (select env p w.session.working.reservations) _ c (λ _ r m.
          (In-filter p r w.session.working.reservations
            (In-perm r (env.order-perm Reservation _) m)).0))

    pub release_expired_holds-keeps :
        (w : World env)
        → w.session.working ≡ w.session.committed
        → P w.session (release_expired_holds env w).1.session
    unfolding release_expired_holds get_expired_held
    release_expired_holds-keeps w c =
        release_selected-keeps _ (record w { outside = (env.utcnow w.outside).1 }) c

    pub release_user_holds-keeps :
        (user_id : Text) (w : World env)
        → w.session.working ≡ w.session.committed
        → P w.session (release_user_holds env user_id w).1.session
    unfolding release_user_holds get_held_by_user
    release_user_holds-keeps user_id w c = elim (Option-cases (env.uuid_parse user_id)) [
      | inl e ↦ rw e (stay w.session)
      | inr (user, e) ↦ rw e (release_selected-keeps _ w c)
    ]

  -- From steady to steady.
  abbrev Steady : Session → Session → Type 0
  Steady s s' =
      (IsSteady env s → IsSteady env s') × (s.working ≡ s.committed → s'.working ≡ s'.committed)

  Releases-Steady :
      (r : Reservation) (s s' : Session)
      → s.working ≡ s.committed
      → In r s.working.reservations
      → Releases r s s'
      → Steady s s'
  Releases-Steady r s s' c m (ids, h, p, q) = (
    λ v. subst (IsSteady env) (sym q) (
        saved-IsSteady env _ (
          stored-IsConsistent env available cancelled ids r s.working refl
            (subst (IsConsistent env) (sym c) v.sound) m h p)),
    λ _. ap (λ z. z.working) q ∙ sym (ap (λ z. z.committed) q),
  )

  pub release_expired_holds-IsSteady :
      (w : World env)
      → IsSteady env w.session
      → IsSteady env (release_expired_holds env w).1.session
  release_expired_holds-IsSteady w v =
      (release_expired_holds-keeps Steady (λ s. (λ v. v, λ c. c))
          (λ s s' s'' p q. (λ v. q.0 (p.0 v), λ c. q.1 (p.1 c))) (λ s s' p. p.1) Releases-Steady w
          v.clean).0
        v

  pub release_user_holds-IsSteady :
      (user_id : Text) (w : World env)
      → IsSteady env w.session
      → IsSteady env (release_user_holds env user_id w).1.session
  release_user_holds-IsSteady user_id w v =
      (release_user_holds-keeps Steady (λ s. (λ v. v, λ c. c))
          (λ s s' s'' p q. (λ v. q.0 (p.0 v), λ c. q.1 (p.1 c))) (λ s s' p. p.1) Releases-Steady
          user_id w v.clean).0
        v
