-- ===== src/Seeds/Names.antt =====
-- The loop over the events of the seeds.
use ticket_booking.Base.{
  ℕ, ◌≡◌, refl, sym, subst, inl, inr, Option, List, [], ◌∷◌, All, Text, text_eq, text_eq_iff,
  Option-cases, arith,
}
use ticket_booking.Exceptions.{Result, ok, err}
use ticket_booking.Models.{Event}
use ticket_booking.Env.{Env}
use ticket_booking.Action.{Session, World}
use ticket_booking.Action.Rules.{bind_result}
use ticket_booking.Repositories.Reads.{select_first, first_found}
use ticket_booking.Seeds.{SectionData, EventData, unless_found, create_event, create_events}
use ticket_booking.Seeds.Creation.{create_event-eq-ok}
use ticket_booking.Seeds.Found.{any-append, HasEvent, found_any}

module _ (env : Env) where
  module _ (fromisoformat : Text → Option ℕ) (sections : List SectionData) where
    -- What the loop over the events has done when it returns: names that were stored are, those of
    -- the loop are, and the users are as they were.
    pub record Named (ds : List EventData) (s s' : Session) : Type 0 where
      pub kept : (d : EventData) → HasEvent s.working d → HasEvent s'.working d
      pub stored : All (HasEvent s'.working) ds

    pub create_events-Named :
        (ds : List EventData) (w : World env)
        → (create_events env fromisoformat ds sections w).0 ≡ ok tt
        → Named ds w.session (create_events env fromisoformat ds sections w).1.session
    unfolding create_events unless_found
    create_events-Named [] w h = record { kept = λ d m. m; stored = tt }
    create_events-Named (d ∷ ds) w h =
        go (unless_found env (found w) (create_event env fromisoformat d sections) w) (step w)
          (create_events-Named ds) h
      where
        found : World env → Option Event
        found w = select_first env (λ e. text_eq e.name d.name) w.session.working.events

        Grows : World env → Result (Unit {0}) × World env → Type 0
        Grows w x =
            x.0 ≡ ok tt
            → HasEvent x.1.session.working d
              × ((d' : EventData) → HasEvent w.session.working d' → HasEvent x.1.session.working d')

        added : (w : World env) → Grows w (create_event env fromisoformat d sections w)
        added w k =
            let (event, name, total, free, (seats, at, size, stored)) =
              create_event-eq-ok env fromisoformat d sections w k in
            (
              subst (λ s. HasEvent s.working d) (sym stored)
                  (ground (
                    arith,
                    any-append (λ e. text_eq e.name d.name) w.session.working.events (event ∷ []),
                    (text_eq_iff event.name d.name).1 name,
                  )),
              λ d' m.
                  subst (λ s. HasEvent s.working d') (sym stored)
                    (ground (
                      arith,
                      any-append (λ e. text_eq e.name d'.name) w.session.working.events
                          (event ∷ []),
                      m,
                    )),
            )

        step :
            (w : World env)
            → Grows w (unless_found env (found w) (create_event env fromisoformat d sections) w)
        step w = elim (Option-cases (found w)) [
          | inr (e, q) ↦ rw q (λ _.
              (found_any env (λ e. text_eq e.name d.name) w.session.working.events e q, λ d' m. m))
          | inl q ↦ rw q (λ ok_then. added w ok_then)
        ]

        go :
            (x : Result (Unit {0}) × World env)
            → Grows w x
            → ((w' : World env)
                → (create_events env fromisoformat ds sections w').0 ≡ ok tt
                → Named ds w'.session (create_events env fromisoformat ds sections w').1.session)
            → (bind_result (λ _. create_events env fromisoformat ds sections) x).0 ≡ ok tt
            → Named
                (d ∷ ds)
                w.session
                (bind_result (λ _. create_events env fromisoformat ds sections) x).1.session
        go (err e, w') g rest k = cc
        go (ok _, w') g rest k =
            let r = rest w' k in
            record {
              kept = λ d' m. r.kept d' ((g refl).1 d' m);
              stored = (r.kept d (g refl).0, r.stored);
            }

    -- Where all of them are stored, the loop does nothing.
    pub create_events-again :
        (ds : List EventData) (w : World env)
        → All (HasEvent w.session.working) ds
        → create_events env fromisoformat ds sections w ≡ (ok tt, w)
    unfolding create_events unless_found
    create_events-again [] w a = refl
    create_events-again (d ∷ ds) w (h, a) =
        let (e, found) = first_found env (λ e. text_eq e.name d.name) w.session.working.events h in
        rw found (create_events-again ds w a)
