-- ===== src/Queue.antt =====
-- The waiting queue: apps/core-api/src/redis/queue.py, services/queue_service.py and the handlers of
-- api/v1/queue.py.
pub mod Admission
pub mod Stream
use ticket_booking.Base.{
  ℕ, zero, suc, ◌+◌, ◌≡◌, Bool, true, false, not, Option, none, some, List, [], ◌∷◌, Text, text_eq,
  ltb, ◌==◌, if◌then◌else◌, length,
}
use ticket_booking.Exceptions.{Result, ok, err, value_error, http_exception}
use ticket_booking.Env.{Env}
use ticket_booking.Action.{Action, World, ◌>>=◌, ◌>>◌, pure, or_raise, external, request, raise_if}
use ticket_booking.Keys.{queue_key, queue_ttl}
use ticket_booking.Tokens.{Jwt, Payload, create_queue_token, create_access_token}

-- The place of a member, from 0.
abbrev pub index_of : Text → List Text → Option ℕ
index_of u [] = none
index_of u (x ∷ xs) =
    let rest = index_of u xs in
    if text_eq x u then some 0 else elim rest [ none ↦ none | some i ↦ some (suc i) ]

abbrev pub without : Text → List Text → List Text
without u [] = []
without u (x ∷ xs) = let rest = without u xs in if text_eq x u then xs else x ∷ rest

abbrev pub insert_at : ℕ → Text → List Text → List Text
insert_at zero u xs = u ∷ xs
insert_at (suc i) u [] = u ∷ []
insert_at (suc i) u (x ∷ xs) = x ∷ insert_at i u xs

-- The commands of Redis on sorted sets, where `members` is `ZRANGE key 0 -1`. A new member is put
-- somewhere by its score.
pub record SortedSets (env : Env) : Type 0 where
  pub members : Text → env.E → List Text
  pub zrank : Text → Text → env.E → Option ℕ
  pub zcard : Text → env.E → ℕ
  pub zadd : Text → Text → ℕ → env.E → env.E
  pub expire : Text → ℕ → env.E → env.E
  pub zrem : Text → Text → env.E → ℕ × env.E
  pub zrank_lem : (k u : Text) (e : env.E) → zrank k u e ≡ index_of u (members k e)
  pub zcard_lem : (k : Text) (e : env.E) → zcard k e ≡ length (members k e)
  pub zadd_lem :
      (k u : Text) (score : ℕ) (e : env.E)
      → index_of u (members k e) ≡ none
      → (i : ℕ) × (members k (zadd k u score e) ≡ insert_at i u (members k e))
  pub expire_lem : (k : Text) (ttl : ℕ) (e : env.E) → members k (expire k ttl e) ≡ members k e
  pub zrem_lem : (k u : Text) (e : env.E) → members k (zrem k u e).1 ≡ without u (members k e)
  -- `Request.is_disconnected`
  pub is_disconnected : env.E → Bool × env.E

pub record JoinResult : Type 0 where
  pub position : Option ℕ
  pub queue_token : Text
  pub total : ℕ

pub record QueueStatus : Type 0 where
  pub position : Option ℕ
  pub total : ℕ
  pub is_in_queue : Bool

pub data Message : Type 0 where
  not_in_queue : ℕ → Message
  ready : ℕ → Option Text → Message
  waiting : ℕ → ℕ → Message

abbrev pub next_rank : Option ℕ → Option ℕ
next_rank none = none
next_rank (some rank) = some (rank + 1)

abbrev pub is_some : Option ℕ → Bool
is_some none = false
is_some (some _) = true

module _ (env : Env) (zs : SortedSets env) where
  -- `add_to_queue`, with the score `time.time()` in microseconds.
  unfoldable pub add_to_queue : Text → Text → Action env (Unit {0})
  add_to_queue event_id user_id = do
    score ← external env env.utcnow
    let key = queue_key event_id
    request env (λ e. (tt, zs.expire key queue_ttl (zs.zadd key user_id score e)))

  -- `get_position`
  unfoldable pub get_position : Text → Text → Action env (Option ℕ)
  get_position event_id user_id =
      request env (λ e. (next_rank (zs.zrank (queue_key event_id) user_id e), e))

  -- `get_queue_size`
  unfoldable pub get_queue_size : Text → Action env ℕ
  get_queue_size event_id = request env (λ e. (zs.zcard (queue_key event_id) e, e))

  -- `remove_from_queue`
  unfoldable pub remove_from_queue : Text → Text → Action env ℕ
  remove_from_queue event_id user_id = request env (zs.zrem (queue_key event_id) user_id)

  -- The Lua script of `consume_from_queue_atomic`, one step of Redis.
  unfoldable pub consume_script : Text → Text → env.E → Bool × env.E
  consume_script key user_id e = elim (zs.zrank key user_id e) [
    | none ↦ (false, e)
    | some rank ↦ if rank == 0 then (true, (zs.zrem key user_id e).1) else (false, e)
  ]

  -- `consume_from_queue_atomic`
  unfoldable pub consume_from_queue_atomic : Text → Text → Action env Bool
  consume_from_queue_atomic event_id user_id =
      request env (consume_script (queue_key event_id) user_id)

  module _ (jwt : Jwt) where
    -- What `join_queue` returns for a position.
    unfoldable pub join_result : Text → Text → Option ℕ → Action env JoinResult
    join_result user_id event_id position = do
      total ← get_queue_size event_id
      token ← create_queue_token env jwt user_id event_id position
      let result =
          let j : JoinResult = record { position = position; queue_token = token; total = total } in
          j
      pure result

    unfoldable pub join_from : Text → Text → Option ℕ → Action env JoinResult
    join_from user_id event_id (some existing) = join_result user_id event_id (some existing)
    join_from user_id event_id none = do
      add_to_queue event_id user_id
      position ← get_position event_id user_id
      join_result user_id event_id position

    -- `QueueService.join_queue`
    unfoldable pub join_queue : Text → Text → Action env JoinResult
    join_queue user_id event_id = do
      existing ← get_position event_id user_id
      join_from user_id event_id existing

    -- `QueueService.leave_queue`
    unfoldable pub leave_queue : Text → Text → Action env Bool
    leave_queue user_id event_id = do
      removed ← remove_from_queue event_id user_id
      pure (ltb 0 removed)

    unfoldable pub token_if : Text → Text → Bool → Action env (Option Text)
    token_if user_id event_id false = pure none
    token_if user_id event_id true =
        create_access_token env jwt user_id event_id >>= λ token. pure (some token)

    -- `QueueService.consume_token`
    unfoldable pub consume_token : Text → Text → Action env (Option Text)
    consume_token user_id event_id = do
      consumed ← consume_from_queue_atomic event_id user_id
      token_if user_id event_id consumed

    -- The handler `join_queue`: the response, and whether the background task is started. A response
    -- with no position fails its schema, by a ValueError.
    unfoldable pub handle_join : Text → Text → Action env (JoinResult × Bool)
    handle_join user_id event_id = do
      result ← join_queue user_id event_id
      raise_if (not (is_some result.position)) value_error
      pure (result, result.total == 1)

    -- `if token_user["sub"] != user_id`
    unfoldable pub check_user : Payload → Text → Action env (Unit {0})
    check_user token_user user_id =
        raise_if (not (text_eq token_user.sub user_id)) (http_exception 403)

    -- The handler `get_queue_status`
    unfoldable pub get_queue_status : Payload → Text → Text → Action env QueueStatus
    get_queue_status token_user user_id event_id = do
      check_user token_user user_id
      position ← get_position event_id user_id
      total ← get_queue_size event_id
      let result =
          let s : QueueStatus = record {
            position = position;
            total = total;
            is_in_queue = is_some position;
          } in
          s
      pure result

    -- The handler `leave_queue`
    unfoldable pub handle_leave : Payload → Text → Text → Action env (Unit {0})
    handle_leave token_user user_id event_id = do
      check_user token_user user_id
      removed ← leave_queue user_id event_id
      raise_if (not removed) (http_exception 404)

    -- The message for a position.
    unfoldable pub message : Text → Text → ℕ → Option ℕ → Action env Message
    message user_id event_id total none = pure (not_in_queue total)
    message user_id event_id total (some position) =
        if position == 1
        then (consume_token user_id event_id >>= λ token. pure (ready total token))
        else pure (waiting position total)

    unfoldable pub next_message : Text → Text → Bool → Action env (Option Message)
    next_message user_id event_id true = pure none
    next_message user_id event_id false = do
      position ← get_position event_id user_id
      total ← get_queue_size event_id
      m ← message user_id event_id total position
      pure (some m)

    -- One round of `event_stream`; `none` is its `break` for a client that has gone.
    unfoldable pub stream_round : Text → Text → Action env (Option Message)
    stream_round user_id event_id =
        external env zs.is_disconnected >>= next_message user_id event_id

    -- What follows a round: the stream ends, also by an exception, or goes on after two seconds.
    unfoldable pub after_round :
        (World env → List Message × World env)
        → Result (Option Message) × World env
        → List Message × World env
    after_round rest (ok (some (waiting position total)), w) =
        let (messages, w') = rest (record w { outside = env.sleep 2000 w.outside }) in
        (waiting position total ∷ messages, w')
    after_round rest (ok (some m), w) = (m ∷ [], w)
    after_round rest (ok none, w) = ([], w)
    after_round rest (err e, w) = ([], w)

    -- `event_stream`, for a number of rounds; the source has no bound.
    unfoldable pub event_stream : ℕ → Text → Text → World env → List Message × World env
    event_stream zero user_id event_id w = ([], w)
    event_stream (suc rounds) user_id event_id w =
        after_round (event_stream rounds user_id event_id) (stream_round user_id event_id w)
