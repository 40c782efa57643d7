-- ===== src/Cleaning/Sweep.antt =====
-- The release loops on a quiet Redis with all locks free.
use ticket_booking.Base.{
  Bool, true, ◌+◌, sum, In-any, ==_iff, ◌||◌, ℕ, ◌≤◌, ◌≡◌, refl, sym, ◌∙◌, ap, subst, inl, inr,
  false, List, [], ◌∷◌, map, any, In, ◌&&◌, ◌==◌, Bool-cases, arith, if◌then◌else◌,
}
use mathlib.Core.Bool.{false≢true}
use ticket_booking.Exceptions.{Result, ok, err}
use ticket_booking.Models.{cancelled, Reservation, held, is_held, Tables}
use ticket_booking.Env.{Env}
use ticket_booking.Action.{Action, World, Session, ◌>>=◌}
use ticket_booking.Action.Rules.{bind_result}
use ticket_booking.Reservations.Counting.{with_status, with_key, present, with_key-with_status}
use ticket_booking.Reservations.Release.{recover, release_block, release_one, load, release_all}
use ticket_booking.Reservations.Ending.{get_reservation_by_id-In}
use ticket_booking.Repositories.Reads.{get_reservation_by_id, first_found}
use ticket_booking.History.Finality.{HasKeys, same_row, In-map}
use ticket_booking.Cleaning.Quiet.{QuietLaws, SameLocks, AllFree}
use ticket_booking.Cleaning.Locking.{reservation_lock-up}
use ticket_booking.Cleaning.Rounds.{is_open, Readable, Cleared, Clears, Counts, block-up}
use ticket_booking.Cleaning.Sizes.{size, size-cleared}

-- The change that cancels a reservation opens none.
is_open-stays :
    (k j : ℕ) (rs : List Reservation)
    → any (λ x. (x.reservation_id == k) && is_held x.status) rs ≡ false
    → any (λ x. (x.reservation_id == k) && is_held x.status) (map (with_status cancelled j) rs)
      ≡ false
is_open-stays k j [] h = refl
is_open-stays k j (r ∷ rs) h = ground (arith, is_open-stays k j rs)

is_open-cancelled :
    (k : ℕ) (rs : List Reservation)
    → any (λ x. (x.reservation_id == k) && is_held x.status) (map (with_status cancelled k) rs)
      ≡ false
is_open-cancelled k [] = refl
is_open-cancelled k (r ∷ rs) = ground (arith, is_open-cancelled k rs)

held-before :
    (j : ℕ) (r : Reservation) (rs : List Reservation)
    → In r (map (with_status cancelled j) rs)
    → r.status ≡ held
    → In r rs
held-before j r [] m h = absurd m
held-before j r (x ∷ rs) (inr m) h = inr (held-before j r rs m h)
held-before j r (x ∷ rs) (inl e) h = elim (Bool-cases (x.reservation_id == j)) [
  | inr f ↦ inl (sym (ap (λ b. if b then record x { status = cancelled } else x) f) ∙ e)
  | inl f ↦ absurd (
      false≢true (
        ap (λ b. is_held (let y = if b then record x { status = cancelled } else x in y.status))
          (sym f)
        ∙ ap (λ y. is_held y.status) e
        ∙ ap is_held h))
]

module _ (env : Env) (laws : QuietLaws env) where
  -- A session from which the loops can go on.
  pub record IsReady (w : World env) : Type 0 where
    pub unique : HasKeys w.session.working
    pub readable : Readable env laws w.session.working
    pub free : AllFree env laws w.outside
    pub clean : w.session.working ≡ w.session.committed

  Cleared-is_open :
      (k : ℕ) (s s' : Session) → Cleared env laws k s s' → is_open k s'.working ≡ false
  Cleared-is_open k s s' (inl (e, h)) = ap (λ z. is_open k z.working) e ∙ h
  Cleared-is_open k s s' (inr (ids, e)) =
      ap (λ z. is_open k z.working) e ∙ is_open-cancelled k s.working.reservations

  Cleared-stays :
      (k j : ℕ) (s s' : Session)
      → Cleared env laws j s s'
      → is_open k s.working ≡ false
      → is_open k s'.working ≡ false
  Cleared-stays k j s s' (inl (e, h)) c = ap (λ z. is_open k z.working) e ∙ c
  Cleared-stays k j s s' (inr (ids, e)) c =
      ap (λ z. is_open k z.working) e ∙ is_open-stays k j s.working.reservations c

  Cleared-HasKeys :
      (j : ℕ) (s s' : Session) → Cleared env laws j s s' → HasKeys s.working → HasKeys s'.working
  Cleared-HasKeys j s s' (inl (e, h)) u = subst (λ z. HasKeys z.working) (sym e) u
  Cleared-HasKeys j s s' (inr (ids, e)) u =
      subst (λ z. HasKeys z.working) (sym e)
        (λ k.
          subst (λ n. n ≤ 1) (sym (with_key-with_status k j cancelled s.working.reservations))
            (u k))

  Cleared-Readable :
      (j : ℕ) (s s' : Session)
      → Cleared env laws j s s'
      → Readable env laws s.working
      → Readable env laws s'.working
  Cleared-Readable j s s' (inl (e, h)) p = subst (λ z. Readable env laws z.working) (sym e) p
  Cleared-Readable j s s' (inr (ids, e)) p =
      subst (λ z. Readable env laws z.working) (sym e)
        (λ r m h. p r (held-before j r s.working.reservations m h) h)

  Cleared-held :
      (j : ℕ) (s s' : Session)
      → Cleared env laws j s s'
      → (r : Reservation) → In r s'.working.reservations
      → r.status ≡ held
      → In r s.working.reservations
  Cleared-held j s s' (inl (e, h)) r m q = subst (λ z. In r z.working.reservations) e m
  Cleared-held j s s' (inr (ids, e)) r m q =
      held-before j r s.working.reservations (subst (λ z. In r z.working.reservations) e m) q

  Cleared-clean :
      (j : ℕ) (s s' : Session)
      → Cleared env laws j s s'
      → s.working ≡ s.committed
      → s'.working ≡ s'.committed
  Cleared-clean j s s' (inl (e, h)) c = subst (λ z. z.working ≡ z.committed) (sym e) c
  Cleared-clean j s s' (inr (ids, e)) c = subst (λ z. z.working ≡ z.committed) (sym e) refl

  block : Reservation → Action env Bool
  block r = release_block env (env.uuid_str r.event_id) r

  Cleared-size :
      (j : ℕ) (s s' : Session)
      → Cleared env laws j s s'
      → (r : Reservation) → size env s'.working r ≡ size env s.working r
  Cleared-size j s s' (inl (e, h)) r = ap (λ z. size env z.working r) e
  Cleared-size j s s' (inr (ids, e)) r =
      ap (λ z. size env z.working r) e ∙ size-cleared env ids s.working r

  -- A row with another key stays.
  Cleared-In :
      (j : ℕ) (s s' : Session)
      → Cleared env laws j s s'
      → (r : Reservation) → (r.reservation_id == j) ≡ false
      → In r s.working.reservations
      → In r s'.working.reservations
  Cleared-In j s s' (inl (e, h)) r f m = subst (λ z. In r z.working.reservations) (sym e) m
  Cleared-In j s s' (inr (ids, e)) r f m =
      subst (λ z. In r z.working.reservations) (sym e)
        (subst (λ y. In y (map (with_status cancelled j) s.working.reservations))
          (ap (λ b. if b then record r { status = cancelled } else r) f)
          (In-map (with_status cancelled j) r s.working.reservations m))

  recovered :
      (r : Reservation) (w : World env) (x : Result Bool × World env)
      → IsReady w
      → AllFree env laws x.1.outside
      → Clears env laws r w.session x
      → Counts env laws r w x.1
      → IsReady (recover env x).1
        × Clears env laws r w.session (recover env x)
        × Counts env laws r w (recover env x).1
  unfolding recover
  recovered r w (err e, w') v free (b, h, same, c) n = cc
  recovered r w (ok b', w') v free (b, h, same, c) n = (
    record {
      unique = Cleared-HasKeys r.reservation_id w.session w'.session c v.unique;
      readable = Cleared-Readable r.reservation_id w.session w'.session c v.readable;
      free = free;
      clean = Cleared-clean r.reservation_id w.session w'.session c v.clean;
    },
    (b, h, same, c),
    n,
  )

  one-up :
      (r : Reservation) (w : World env)
      → IsReady w
      → In r w.session.working.reservations
      → let x = release_one env r w in
        IsReady x.1 × Clears env laws r w.session x × Counts env laws r w x.1
  unfolding release_one block
  one-up r w v m =
      let (free, (w1, same, out, ran, before, after)) =
        reservation_lock-up env laws (env.uuid_str r.event_id) (block r) w v.free
          (λ w1 e. (run w1 e).0) in
      let (b, h, unchanged, c) = (run w1 same).1 in
      recovered r w _ v free
        (
          b,
          out ∙ h,
          λ f. ran ∙ unchanged f ∙ same,
          subst (Cleared env laws r.reservation_id w.session) (sym ran)
              (subst (λ s. Cleared env laws r.reservation_id s (block r w1).1.session) same c),
        )
        (λ k. omega (
          arith,
          ap (λ z. z.released) after,
          (run w1 same).2 k,
          ap (λ z. z.released) before,
          ap (λ z. size env z.working r) same,
        ))
    where
      run :
          (w1 : World env)
          → w1.session ≡ w.session
          → SameLocks env laws w1.outside (block r w1).1.outside
            × Clears env laws r w1.session (block r w1)
            × Counts env laws r w1 (block r w1).1
      run w1 e =
          block-up env laws (env.uuid_str r.event_id) r w1
            (subst (λ s. HasKeys s.working) (sym e) v.unique)
            (subst (λ s. Readable env laws s.working) (sym e) v.readable)
            (subst (λ s. In r s.working.reservations) (sym e) m)

  -- The objects that are left are as their rows, which are held and have different keys.
  pub record IsKnown (rs : List Reservation) (t : Tables) : Type 0 where
    pub stored : (r : Reservation) → In r rs → In r t.reservations
    pub live : (r : Reservation) → In r rs → is_held r.status ≡ true
    pub apart : (k : ℕ) → with_key k rs ≤ 1

  load-up :
      (expired : Bool) (r : Reservation) (w : World env)
      → HasKeys w.session.working
      → In r w.session.working.reservations
      → load env expired r w ≡ (ok r, w)
  unfolding load get_reservation_by_id
  load-up false r w u m = refl
  load-up true r w u m =
      let (row, e) =
        first_found env (λ x. x.reservation_id == r.reservation_id) w.session.working.reservations
          (In-any _ r w.session.working.reservations m
            ((==_iff r.reservation_id r.reservation_id).1 refl)) in
      let (m', key) = get_reservation_by_id-In env r.reservation_id w.session.working row e in
      let same =
        same_row r row w.session.working.reservations m m' (sym key) (u r.reservation_id) in
      rw e (ap (λ y. (ok y, w)) (sym same))

  Clears-IsKnown :
      (r : Reservation) (rs : List Reservation) (s s' : Session)
      → IsKnown (r ∷ rs) s.working
      → Cleared env laws r.reservation_id s s'
      → IsKnown rs s'.working
  Clears-IsKnown r rs s s' known c = record {
    stored = λ a m. elim (Bool-cases (a.reservation_id == r.reservation_id)) [
      | inl e ↦ absurd (ground (arith, e, present a rs m, known.apart a.reservation_id))
      | inr f ↦ Cleared-In r.reservation_id s s' c a f (known.stored a (inr m))
    ];
    live = λ a m. known.live a (inr m);
    apart = λ k. ground (arith, known.apart k);
  }

  -- What the loop over some reservations has done when it ends.
  pub record Swept (rs : List Reservation) (w : World env) (x : Result (Unit {0}) × World env)
      : Type 0 where
    pub returns : x.0 ≡ ok tt
    pub clean : x.1.session.working ≡ x.1.session.committed
    pub stays :
        (k : ℕ) → is_open k w.session.working ≡ false → is_open k x.1.session.working ≡ false
    pub clears : (r : Reservation) → In r rs → is_open r.reservation_id x.1.session.working ≡ false
    pub keeps :
        (r : Reservation)
        → In r x.1.session.working.reservations
        → r.status ≡ held
        → In r w.session.working.reservations
    pub total :
        x.1.counters.released ≡ w.counters.released + sum (map (size env w.session.working) rs)

  pub release_all-Swept :
      (expired : Bool) (rs : List Reservation) (w : World env)
      → IsReady w
      → IsKnown rs w.session.working
      → Swept rs w (release_all env expired rs w)
  unfolding release_all
  release_all-Swept expired [] w v known = record {
    returns = refl;
    clean = v.clean;
    stays = λ k h. h;
    clears = λ r m. absurd m;
    keeps = λ r m h. m;
    total = omega arith;
  }
  release_all-Swept expired (r ∷ rs) w v known =
      subst (λ x. Swept (r ∷ rs) w (bind_result turn x))
        (sym (load-up expired r w v.unique (known.stored r (inl refl))))
        (go (release_one env r w) (one-up r w v (known.stored r (inl refl)))
          (λ b. release_all-Swept (expired || b) rs))
    where
      turn : Reservation → Action env (Unit {0})
      turn r' = release_one env r' >>= λ b. release_all env (expired || b) rs

      go :
          (x : Result Bool × World env)
          → IsReady x.1 × Clears env laws r w.session x × Counts env laws r w x.1
          → ((b : Bool) (w' : World env)
              → IsReady w'
              → IsKnown rs w'.session.working
              → Swept rs w' (release_all env (expired || b) rs w'))
          → Swept (r ∷ rs) w (bind_result (λ b. release_all env (expired || b) rs) x)
      go (err e, w') (v', (b, h, same, c), n) rest = cc
      go (ok b', w') (v', (b, h, same, c), n) rest =
          let q = rest b' w' v' (Clears-IsKnown r rs w.session w'.session known c) in
          let y = release_all env (expired || b') rs w' in
          record {
            returns = q.returns;
            clean = q.clean;
            stays = λ k o. q.stays k (Cleared-stays k r.reservation_id w.session w'.session c o);
            clears = λ a m. elim m [
              | inl e ↦
                  subst (λ z. is_open z.reservation_id y.1.session.working ≡ false) e
                    (q.stays r.reservation_id
                      (Cleared-is_open r.reservation_id w.session w'.session c))
              | inr m' ↦ q.clears a m'
            ];
            keeps =
                λ a m o. Cleared-held r.reservation_id w.session w'.session c a (q.keeps a m o) o;
            total =
                let sizes : (size env w'.session.working) ≡ (size env w.session.working) =
                  λ i a. Cleared-size r.reservation_id w.session w'.session c a i in
                omega (arith, q.total, n (known.live r (inl refl)), ap (λ f. sum (map f rs)) sizes);
          }
