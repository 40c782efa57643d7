-- ===== src/Catalogue/Stored.antt =====
-- How the seat endpoints use the cache: what they find in it and what they leave.
use ticket_booking.Base.{ℕ, ◌≡◌, refl, ◌∙◌, ap, true, none, some, List, Text}
use ticket_booking.Exceptions.{ok}
use ticket_booking.Env.{Env, Command, SeatUpdate}
use ticket_booking.Action.{World, Action, pure}
use ticket_booking.Action.Rules.{bind_result, request-up}
use ticket_booking.Keys.{seat_cache_ttl}
use ticket_booking.Catalogue.{SeatResponse, SeatListResponse, seat_list, Json}
use ticket_booking.Catalogue.Endpoints.{
  ApiResponse, success, success_cached, from_cache, cached_or, store,
}

-- Redis answers, and while no other client writes to it and no key expires, it gives back what was
-- set, and nothing for what was deleted.
pub record CacheLaws (env : Env) : Type 0 where
  pub up : (e : env.E) → (env.reach e).0 ≡ true
  pub get-reach : (k : Text) (e : env.E) → env.get k (env.reach e).1 ≡ env.get k e
  pub get-utcnow : (k : Text) (e : env.E) → env.get k (env.utcnow e).1 ≡ env.get k e
  pub get-set :
      (k v : Text) (ttl : ℕ) (e : env.E) → env.get k (env.command (Command.set k v ttl) e) ≡ some v
  pub get-delete : (k : Text) (e : env.E) → env.get k (env.command (Command.delete k) e) ≡ none
  pub delete_again :
      (j k : Text) (e : env.E)
      → env.get j e ≡ none
      → env.get j (env.command (Command.delete k) e) ≡ none
  pub get-publish :
      (k c : Text) (u : SeatUpdate) (e : env.E)
      → env.get k (env.command (Command.publish c u) e) ≡ env.get k e

module _ (env : Env) (json : Json) (laws : CacheLaws env) where
  -- Redis is asked first.
  unfoldable pub reached : World env → World env
  reached w = record w { outside = (env.reach w.outside).1 }

  read :
      (key : Text) (otherwise : Action env (ApiResponse SeatListResponse)) (w : World env)
      → cached_or env json key otherwise w
        ≡ from_cache env json otherwise (env.get key w.outside) (reached w)
  unfolding cached_or reached
  read key otherwise w =
      ap (bind_result (from_cache env json otherwise))
        (request-up env (λ e. (env.get key e, e)) w (laws.up w.outside))
      ∙ ap (λ c. from_cache env json otherwise c (reached w)) (laws.get-reach key w.outside)

  -- Nothing in the cache.
  pub read-miss :
      (key : Text) (otherwise : Action env (ApiResponse SeatListResponse)) (w : World env)
      → env.get key w.outside ≡ none
      → cached_or env json key otherwise w ≡ otherwise (reached w)
  unfolding from_cache
  read-miss key otherwise w h =
      read key otherwise w ∙ ap (λ c. from_cache env json otherwise c (reached w)) h

  -- The text of a list in the cache.
  pub read-hit :
      (key : Text) (otherwise : Action env (ApiResponse SeatListResponse)) (w : World env)
      (items : List SeatResponse)
      → env.get key w.outside ≡ some (json.dumps items)
      → (cached_or env json key otherwise w).0 ≡ ok (success_cached (seat_list items))
  unfolding from_cache
  read-hit key otherwise w items h =
      ap (λ x. x.0) (read key otherwise w)
      ∙ ap (λ c. (from_cache env json otherwise c (reached w)).0) h
      ∙ rw (json.dumps_filled items, json.loads-dumps items) refl

  -- What is stored is there to be read, and is the reply.
  unfoldable pub stored : Text → SeatListResponse → World env → World env
  stored key seats w = record w {
    outside =
        env.command (Command.set key (json.dumps seats.items) seat_cache_ttl)
          (env.reach w.outside).1;
  }

  pub store-eq :
      (key : Text) (seats : SeatListResponse) (w : World env)
      → store env json key seats w ≡ (ok (success seats), stored key seats w)
  unfolding store stored
  store-eq key seats w = ap (bind_result (λ _. pure (success seats))) (
      request-up env
        (λ e. (tt, env.command (Command.set key (json.dumps seats.items) seat_cache_ttl) e)) w
        (laws.up w.outside))
