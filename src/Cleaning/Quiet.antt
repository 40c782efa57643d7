-- ===== src/Cleaning/Quiet.antt =====
-- A Redis that answers and that nobody else writes to, and what a block under a lock does there.
use ticket_booking.Base.{
  ℕ, ◌≡◌, ◌≢◌, refl, sym, ◌∙◌, ap, subst, false, none, some, List, [], ◌∷◌, Text, text_eq,
}
use ticket_booking.Exceptions.{Result, ok, err}
use ticket_booking.Models.{Seat, SeatStatus, Reservation, ReservationStatus}
use ticket_booking.Env.{Env, Command, SeatUpdate}
use ticket_booking.Action.{Action, World, ◌>>◌, pure, run_commands}
use ticket_booking.Action.Rules.{bind_result, request-up}
use ticket_booking.Keys.{lock_reservation_key, seat_hold_key}
use ticket_booking.Keys.Distinct.{lock_reservation_key-distinct}
use ticket_booking.Lock.Laws.{LockLaws}
use ticket_booking.Repositories.Reads.{seats_in}
use ticket_booking.Reservations.Common.{
  parse_all, publish_seat_update, delete_holds, announce, finish,
}

-- What Redis promises of a lock, and that a command on one key leaves the others.
pub record QuietLaws (env : Env) : Type 0 where
  pub lock : LockLaws env
  pub get-utcnow : (k : Text) (e : env.E) → env.get k (env.utcnow e).1 ≡ env.get k e
  pub set_nx-other :
      (j k v : Text) (ttl : ℕ) (e : env.E)
      → text_eq k j ≡ false
      → env.get j (env.set_nx k v ttl e).1 ≡ env.get j e
  pub del-other :
      (j k : Text) (e : env.E) → text_eq k j ≡ false → env.get j (env.del k e).1 ≡ env.get j e
  pub delete-other :
      (j k : Text) (e : env.E) → j ≢ k → env.get j (env.command (Command.delete k) e) ≡ env.get j e
  pub get-publish :
      (k c : Text) (u : SeatUpdate) (e : env.E)
      → env.get k (env.command (Command.publish c u) e) ≡ env.get k e

module _ (env : Env) (laws : QuietLaws env) where
  -- The locks of all events are as they were, or free.
  abbrev pub SameLocks : env.E → env.E → Type 0
  SameLocks e e' =
      (event : Text)
      → env.get (lock_reservation_key event) e' ≡ env.get (lock_reservation_key event) e

  abbrev pub AllFree : env.E → Type 0
  AllFree e = (event : Text) → env.get (lock_reservation_key event) e ≡ none

  deletes-SameLocks :
      (event_id : Text) (seats : List Seat) (e : env.E)
      → SameLocks e (run_commands env (delete_holds env event_id seats) e)
  deletes-SameLocks event_id [] e event = refl
  deletes-SameLocks event_id (s ∷ seats) e event =
      deletes-SameLocks event_id seats
        (env.command (Command.delete (seat_hold_key event_id (env.uuid_str s.seat_id))) e) event
      ∙ laws.delete-other _ _ e
          (lock_reservation_key-distinct event event_id (env.uuid_str s.seat_id)).0

  publish-up :
      (event_id : Text) (seats : List Seat) (st : SeatStatus) (w : World env)
      → ((publish_seat_update env event_id seats st w).0 ≡ ok tt)
        × SameLocks w.outside (publish_seat_update env event_id seats st w).1.outside
  unfolding publish_seat_update
  publish-up event_id seats st w = (
    refl,
    λ event. rw (laws.lock.up (env.utcnow w.outside).1) (
        laws.get-publish _ _ _ _
        ∙ laws.delete-other _ _ _ (lock_reservation_key-distinct event event_id []).2
        ∙ laws.delete-other _ _ _ (lock_reservation_key-distinct event event_id []).1
        ∙ laws.lock.get-reach _ _
        ∙ laws.get-utcnow _ _),
  )

  publish_then : List Seat → Text → SeatStatus → Action env (List Seat)
  publish_then seats event_id st = publish_seat_update env event_id seats st >> pure seats

  announced :
      (event_id : Text) (seats : List Seat) (st : SeatStatus) (w : World env)
      → ((publish_then seats event_id st w).0 ≡ ok seats)
        × SameLocks w.outside (publish_then seats event_id st w).1.outside
  unfolding publish_then
  announced event_id seats st w =
      go (publish_seat_update env event_id seats st w) (publish-up event_id seats st w)
    where
      go :
          (x : Result (Unit {0}) × World env)
          → (x.0 ≡ ok tt) × SameLocks w.outside x.1.outside
          → ((bind_result {env = env} (λ _. pure seats) x).0 ≡ ok seats)
            × SameLocks w.outside (bind_result {env = env} (λ _. pure seats) x).1.outside
      go (ok _, w') (h, s) = (refl, s)
      go (err e, w') (h, s) = cc

  announce-up :
      (event_id : Text) (seats : List Seat) (st : SeatStatus) (w : World env)
      → ((announce env event_id seats st w).0 ≡ ok seats)
        × SameLocks w.outside (announce env event_id seats st w).1.outside
  unfolding announce publish_then
  announce-up event_id seats st w =
      subst (λ x. (x.0 ≡ ok seats) × SameLocks w.outside x.1.outside)
        (sym (
          ap (bind_result (λ _. publish_then seats event_id st)) (
            request-up env (λ e. (tt, run_commands env (delete_holds env event_id seats) e)) w
              (laws.lock.up w.outside))))
        (
          (announced event_id seats st w1).0,
          λ event.
              (announced event_id seats st w1).1 event
              ∙ deletes-SameLocks event_id seats (env.reach w.outside).1 event
              ∙ laws.lock.get-reach _ w.outside,
        )
    where
      w1 : World env
      w1 = record w {
        outside = run_commands env (delete_holds env event_id seats) (env.reach w.outside).1;
      }

  -- The end of a hold whose seats can be read returns.
  pub finish-up :
      (event_id : Text) (r : Reservation) (st : SeatStatus) (rst : ReservationStatus) (ids : List ℕ)
      (w : World env)
      → parse_all env r.seat_ids ≡ some ids
      → let x = finish env event_id r st rst w in
        (x.0 ≡ ok (seats_in env ids w.session.working)) × SameLocks w.outside x.1.outside
  unfolding finish
  finish-up event_id r st rst ids w e = rw e (announce-up _ _ _ _)
