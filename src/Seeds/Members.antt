-- ===== src/Seeds/Members.antt =====
-- The loop over the users of the seeds.
use ticket_booking.Base.{
  ℕ, ◌≡◌, refl, sym, ◌∙◌, ap, subst, inl, inr, ◌⊎◌, true, not, Option, some, none, List, [], ◌∷◌,
  ◌++◌, any, All, In-All, All-In, ◌||◌, Text, codes, text_eq, text_eq_iff, Bool-cases, Option-cases,
  arith,
}
use ticket_booking.Exceptions.{Result, ok, err, integrity_error}
use ticket_booking.Models.{User, Tables}
use ticket_booking.Env.{Env}
use ticket_booking.Action.{
  Action, World, ◌>>=◌, ◌>>◌, pure, query, raise_if, change, commit, external,
}
use ticket_booking.Action.Rules.{bind_result}
use ticket_booking.Repositories.Reads.{select_first, first_found}
use ticket_booking.Seeds.{
  UserData, user_key, new_user, user_if_new, new_users, can_add_users, create_users,
}
use ticket_booking.Seeds.Found.{any-append, HasUser, found_any}

module _ (env : Env) where
  pub new_users-again :
      (us : List UserData) (w : World env)
      → All (HasUser w.session.working) us
      → new_users env us w ≡ (ok [], w)
  unfolding new_users user_if_new
  new_users-again [] w a = refl
  new_users-again (u ∷ us) w (h, a) =
      let (v, found) = first_found env (λ v. text_eq v.email u.email) w.session.working.users h in
      rw found (ap (bind_result (λ others. pure others)) (new_users-again us w a))

  -- The users of a list have been stored, and no event was touched.
  pub record Joined (us : List UserData) (t t' : Tables) : Type 0 where
    pub events : t'.events ≡ t.events
    pub stored : All (HasUser t') us

  -- A user who is in the table or in a list.
  abbrev Covered : Tables → List User → UserData → Type 0
  Covered t users u =
      (any (λ v. text_eq v.email u.email) t.users || any (λ v. text_eq v.email u.email) users)
      ≡ true

  -- The users that are made are those that the table does not have.
  Covers : List UserData → World env → Result (List User) × World env → Type 0
  Covers us w x =
      (x.1.session ≡ w.session)
      × ((users : List User) → x.0 ≡ ok users → All (Covered w.session.working users) us)

  more :
      (t : Tables) (users others : List User) (u : UserData)
      → (Covered t users u) ⊎ (Covered t others u)
      → Covered t (users ++ others) u
  more t users others u (inl h) =
      ground (arith, any-append (λ v. text_eq v.email u.email) users others, h)
  more t users others u (inr h) =
      ground (arith, any-append (λ v. text_eq v.email u.email) users others, h)

  user_key-session : (o : Option Text) (w : World env) → (user_key env o w).1.session ≡ w.session
  unfolding user_key
  user_key-session none w = refl
  user_key-session (some s) w = elim (Option-cases (env.uuid_parse s)) [
    | inl e ↦ rw e refl
    | inr (k, e) ↦ rw e refl
  ]

  new_user-Covers : (u : UserData) (w : World env) → Covers (u ∷ []) w (new_user env u w)
  unfolding new_user user_key Covers
  new_user-Covers u w = go (user_key env u.user_id w) (user_key-session u.user_id w)
    where
      row : ℕ → ℕ → User
      row user_id created_at = record {
        user_id = user_id;
        email = u.email;
        hashed_password = codes "$2b$12$dummy_hashed_password";
        name = u.name;
        phone = some u.phone;
        created_at = created_at;
      }

      make : ℕ → Action env (List User)
      make user_id = do created_at ← external env env.utcnow; pure (row user_id created_at ∷ [])

      go :
          (x : Result ℕ × World env)
          → x.1.session ≡ w.session
          → Covers (u ∷ []) w (bind_result make x)
      go (err e, w') same = (same, λ users h. cc)
      go (ok k, w') same = (
        same,
        λ users h. (
          subst (λ z. Covered w.session.working z u) {x = row k (env.utcnow w'.outside).0 ∷ []}
              {y = users} (cc) (ground (arith, (text_eq_iff u.email u.email).1 refl)),
          tt,
        ),
      )

  user_if_new-Covers :
      (u : UserData) (w : World env)
      → Covers (u ∷ []) w (
          user_if_new env u
            (select_first env (λ v. text_eq v.email u.email) w.session.working.users)
            w)
  unfolding user_if_new Covers
  user_if_new-Covers u w =
      elim (Option-cases
        (select_first env (λ v. text_eq v.email u.email) w.session.working.users)) [
          | inl q ↦ rw q (new_user-Covers u w)
          | inr (v, q) ↦ rw q (
            refl,
            λ users h. (
              ground
                  (arith, found_any env (λ v. text_eq v.email u.email) w.session.working.users v q),
              tt,
            ),
          )
        ]

  both-Covers :
      (u : UserData) (us : List UserData) (w : World env) (y : Result (List User) × World env)
      → Covers (u ∷ []) w y
      → ((w' : World env) → Covers us w' (new_users env us w'))
      → Covers
          (u ∷ us)
          w
          (bind_result (λ users. new_users env us >>= λ others. pure (users ++ others)) y)
  unfolding Covers
  both-Covers u us w (err e, w') (same, c) rest = (same, λ users h. cc)
  both-Covers u us w (ok users, w') (same, c) rest = go (new_users env us w') (rest w')
    where
      go :
          (x : Result (List User) × World env)
          → Covers us w' x
          → Covers (u ∷ us) w (bind_result (λ others. pure (users ++ others)) x)
      go (err e, w'') (same', c') = (same' ∙ same, λ all h. cc)
      go (ok others, w'') (same', c') = (
        same' ∙ same,
        λ all h.
            subst (λ z. All (Covered w.session.working z) (u ∷ us)) {x = users ++ others} {y = all}
              (cc)
              (
                more w.session.working users others u (inl (c users refl).0),
                In-All _ us (λ v m. more w.session.working users others v (
                    inr (
                      subst (λ s. Covered s.working others v) same
                        (All-In _ v us (c' others refl) m)))),
              ),
      )

  new_users-Covers : (us : List UserData) (w : World env) → Covers us w (new_users env us w)
  unfolding new_users Covers
  new_users-Covers [] w = (refl, λ users h. tt)
  new_users-Covers (u ∷ us) w = both-Covers u us w _ (user_if_new-Covers u w) (new_users-Covers us)

  pub create_users-Joined :
      (us : List UserData) (w : World env)
      → (create_users env us w).0 ≡ ok tt
      → Joined us w.session.working (create_users env us w).1.session.working
  unfolding create_users Covers
  create_users-Joined us w = go (new_users env us w) (new_users-Covers us w)
    where
      store : List User → Action env (Unit {0})
      store users = do
        accepted ← query (can_add_users env users)
        raise_if (not accepted) integrity_error
        change (λ t. record t { users = t.users ++ users })
        commit

      go :
          (x : Result (List User) × World env)
          → Covers us w x
          → (bind_result store x).0 ≡ ok tt
          → Joined us w.session.working (bind_result store x).1.session.working
      go (err e, w') c h = cc
      go (ok users, w') (same, covered) h =
          elim (Bool-cases (can_add_users env users w'.session.working)) [
            | inr f ↦ cc (rw f at h)
            | inl f ↦ rw f (record {
              events = ap (λ s. s.working.events) same;
              stored = In-All _ us (λ u m. ground (
                arith,
                any-append (λ v. text_eq v.email u.email) w'.session.working.users users,
                subst (λ s. Covered s.working users u) (sym same)
                    (All-In _ u us (covered users refl) m),
              ));
            })
          ]
