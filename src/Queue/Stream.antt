-- ===== src/Queue/Stream.antt =====
-- The messages of a stream.
use ticket_booking.Base.{
  ℕ, zero, suc, ◌≡◌, ◌≢◌, refl, Option, none, some, List, [], ◌∷◌, Text, arith,
}
use ticket_booking.Exceptions.{Result, ok, err}
use ticket_booking.Env.{Env}
use ticket_booking.Action.{World}
use ticket_booking.Tokens.{Jwt}
use ticket_booking.Queue.{
  SortedSets, Message, not_in_queue, ready, waiting, message, next_message, stream_round,
  after_round, event_stream, get_position, get_queue_size,
}

-- Every message but the last says that the user waits, behind somebody else.
abbrev pub IsStream : List Message → Type 0
IsStream [] = Unit {0}
IsStream (waiting position total ∷ ms) = (position ≢ 1) × IsStream ms
IsStream (m ∷ ms) = ms ≡ []

module _ (env : Env) (zs : SortedSets env) (jwt : Jwt) where
  abbrev IsRound : Result (Option Message) → Type 0
  IsRound (ok (some (waiting position total))) = position ≢ 1
  IsRound _ = Unit {0}

  stream_round-IsRound :
      (user_id event_id : Text) (w : World env)
      → IsRound (stream_round env zs jwt user_id event_id w).0
  unfolding stream_round next_message message get_position get_queue_size
  stream_round-IsRound user_id event_id w = ground arith

  after_round-IsStream :
      (rest : World env → List Message × World env) (x : Result (Option Message) × World env)
      → IsRound x.0
      → ((w : World env) → IsStream (rest w).0)
      → IsStream (after_round env zs jwt rest x).0
  unfolding after_round
  after_round-IsStream rest (ok (some (waiting position total)), w) h r = (h, r _)
  after_round-IsStream rest (ok (some (not_in_queue total)), w) h r = refl
  after_round-IsStream rest (ok (some (ready total token)), w) h r = refl
  after_round-IsStream rest (ok none, w) h r = tt
  after_round-IsStream rest (err e, w) h r = tt

  -- In a stream of any number of rounds every message but the last says that the user waits,
  -- at a position other than 1, and nothing follows a message that the user is ready or is
  -- not in the queue.
  pub event_stream-IsStream :
      (rounds : ℕ) (user_id event_id : Text) (w : World env)
      → IsStream (event_stream env zs jwt rounds user_id event_id w).0
  unfolding event_stream
  event_stream-IsStream zero user_id event_id w = tt
  event_stream-IsStream (suc rounds) user_id event_id w =
      after_round-IsStream (event_stream env zs jwt rounds user_id event_id)
        (stream_round env zs jwt user_id event_id w) (stream_round-IsRound user_id event_id w)
        (event_stream-IsStream rounds user_id event_id)
