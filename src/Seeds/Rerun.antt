-- ===== src/Seeds/Rerun.antt =====
-- A second run of the seeds.
use ticket_booking.Base.{
  ℕ, ◌≡◌, refl, sym, ◌∙◌, ap, subst, true, not, Option, List, [], ◌++◌, any, All, In-All, All-In,
  Text, text_eq,
}
use ticket_booking.Exceptions.{Result, ok, err, integrity_error}
use ticket_booking.Models.{User}
use ticket_booking.Env.{Env}
use ticket_booking.Action.{Action, World, ◌>>=◌, ◌>>◌, query, raise_if, change, commit, rollback}
use ticket_booking.Action.Rules.{bind_result}
use ticket_booking.Reservations.Effects.{saved}
use ticket_booking.Seeds.{
  SectionData, EventData, create_events, can_add_users, create_users, test_users, load_data,
  load_seed_data,
}
use ticket_booking.Seeds.Found.{append_nil, HasEvent, HasUser}
use ticket_booking.Seeds.Names.{Named, create_events-Named, create_events-again}
use ticket_booking.Seeds.Members.{new_users-again, create_users-Joined}

module _ (env : Env) where
  module _ (fromisoformat : Text → Option ℕ) (sections : List SectionData)
      (ds : List EventData) where
    seeded :
        (w : World env)
        → (load_data env fromisoformat ds sections w).0 ≡ ok tt
        → let t = (load_data env fromisoformat ds sections w).1.session.working in
          All (HasEvent t) ds × All (HasUser t) test_users
    unfolding load_data
    seeded w h =
        go (create_events env fromisoformat ds sections w)
          (create_events-Named env fromisoformat sections ds w) h
      where
        go :
            (x : Result (Unit {0}) × World env)
            → (x.0 ≡ ok tt → Named env fromisoformat sections ds w.session x.1.session)
            → (bind_result (λ _. create_users env test_users) x).0 ≡ ok tt
            → let t = (bind_result (λ _. create_users env test_users) x).1.session.working in
              All (HasEvent t) ds × All (HasUser t) test_users
        go (err e, w') n k = cc
        go (ok _, w') n k =
            let j = create_users-Joined env test_users w' k in
            (
              In-All _ ds (λ d m.
                  subst (λ es. any (λ e. text_eq e.name d.name) es ≡ true) (sym j.events)
                    (All-In _ d ds (n refl).stored m)),
              j.stored,
            )

    load_data-again :
        (w : World env)
        → All (HasEvent w.session.working) ds
        → All (HasUser w.session.working) test_users
        → load_data env fromisoformat ds sections w ≡ (
          ok tt,
          record w {
            session = saved (record w.session.working { users = w.session.working.users ++ [] });
          },
        )
    unfolding load_data create_users can_add_users
    load_data-again w a b =
        ap (bind_result (λ _. create_users env test_users))
          (create_events-again env fromisoformat sections ds w a)
        ∙ ap (bind_result store) (new_users-again env test_users w b)
      where
        store : List User → Action env (Unit {0})
        store users = do
          accepted ← query (can_add_users env users)
          raise_if (not accepted) integrity_error
          change (λ t. record t { users = t.users ++ users })
          commit

    -- Where the seeds were loaded without an exception, loading them again from those
    -- tables changes no table.
    pub load_seed_data_again :
        (w w' : World env)
        → (load_data env fromisoformat ds sections w).0 ≡ ok tt
        → w'.session.working ≡ (load_data env fromisoformat ds sections w).1.session.working
        → (load_seed_data env fromisoformat ds sections w').1.session ≡ saved w'.session.working
    unfolding load_seed_data
    load_seed_data_again w w' h same =
        ap
          (λ x.
            (let r : Result (Unit {0}) × World env = elim x.0 [
              | ok _ ↦ (ok tt, x.1)
              | err _ ↦ rollback x.1
            ] in
              r).1.session)
          (load_data-again w' (subst (λ t. All (HasEvent t) ds) (sym same) (seeded w h).0)
            (subst (λ t. All (HasUser t) test_users) (sym same) (seeded w h).1))
        ∙ ap (λ us. saved (record w'.session.working { users = us }))
            (append_nil w'.session.working.users)
