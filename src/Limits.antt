-- ===== src/Limits.antt =====
-- apps/core-api/src/middleware/rate_limiter.py: requests per key and second, counted in Redis.
pub mod Window
use ticket_booking.Base.{
  ℕ, zero, suc, ◌+◌, ◌*◌, ◌/◌, ◌%◌, ◌≡◌, Bool, true, false, not, Option, none, some, List, [], ◌∷◌,
  ◌++◌, map, Text, codes, text_eq, ltb, ◌==◌, if◌then◌else◌,
}
use ticket_booking.Exceptions.{Result, ok, err}
use ticket_booking.Env.{Env}
use ticket_booking.Action.{Action, World, ◌>>=◌, ◌>>◌, pure, external, request}
use ticket_booking.Tokens.{Jwt, Payload, strip, lower, starts_with, drop, decode_token}

pub data LimitType : Type 0 where
  ip user : LimitType

pub record Rule : Type 0 where
  pub max_requests : ℕ
  pub window_seconds : ℕ
  pub rate_limit_type : LimitType

-- `RATE_LIMIT_RULES.get(path)`, else `DEFAULT_LIMIT`.
unfoldable pub rule_of : Text → Rule
rule_of path =
    if text_eq path (codes "/api/queue/join")
    then record { max_requests = 3; window_seconds = 1; rate_limit_type = ip }
    else if text_eq path (codes "/api/v1/reservations")
    then record { max_requests = 2; window_seconds = 1; rate_limit_type = user }
    else record { max_requests = 5; window_seconds = 1; rate_limit_type = ip }

-- INCR and EXPIRE, where `value` is the number at a key, 0 if there is none.
pub record Counting (env : Env) : Type 0 where
  pub value : Text → env.E → ℕ
  pub incr : Text → env.E → ℕ × env.E
  pub expire : Text → ℕ → env.E → env.E
  pub incr_lem : (k : Text) (e : env.E) → (incr k e).0 ≡ suc (value k e)
  pub incr-value : (k : Text) (e : env.E) → value k (incr k e).1 ≡ suc (value k e)
  pub expire-value : (k : Text) (ttl : ℕ) (e : env.E) → value k (expire k ttl e) ≡ value k e
  -- `str` of a number.
  pub show : ℕ → Text

-- A request as the middleware sees it; an absent header or client is `none`.
pub record Incoming : Type 0 where
  pub is_options : Bool
  pub path : Text
  pub forwarded_for : Option Text
  pub host : Option Text
  pub authorization : Option Text

-- `s.split(",")[0]`
unfoldable pub before_comma : Text → Text
before_comma [] = []
before_comma (c ∷ s) = let rest = before_comma s in if c == 44 then [] else c ∷ rest

unfoldable pub host_of : Option Text → Text
host_of none = codes "unknown"
host_of (some host) = host

unfoldable pub client_ip : Option Text → Option Text → Text
client_ip (some (c ∷ s)) host = strip (before_comma (c ∷ s))
client_ip _ host = host_of host

unfoldable pub header_or_empty : Option Text → Text
header_or_empty none = []
header_or_empty (some s) = s

-- What the middleware does: it answers 429 with a delay, or lets the request through.
pub data Verdict : Type 0 where
  passed : Verdict
  too_many_requests : ℕ → Verdict

module _ (env : Env) (counting : Counting env) (jwt : Jwt) where
  -- `_extract_user_id`; an exception means that there is no user.
  unfoldable pub extract_user_id : Option Text → Action env (Option Text)
  extract_user_id authorization w =
      let auth_header = map lower (header_or_empty authorization) in
      if starts_with (codes "bearer ") auth_header
      then (sub_of (decode_token env jwt (drop 7 auth_header) w))
      else (ok none, w)
    where
      sub_of : Result Payload × World env → Result (Option Text) × World env
      sub_of (ok payload, w') = (ok (some payload.sub), w')
      sub_of (err e, w') = (ok none, w')

  unfoldable pub rate_key : Text → Text → ℕ → Text
  rate_key who path bucket =
      codes "rate:" ++ (who ++ (codes ":" ++ (path ++ (codes ":" ++ counting.show bucket))))

  -- The user if there is one that is not empty, else the address.
  unfoldable pub who_of : Text → Option Text → Text
  who_of address (some (c ∷ s)) = c ∷ s
  who_of address _ = address

  unfoldable pub subject : LimitType → Incoming → Action env Text
  subject ip r = pure (client_ip r.forwarded_for r.host)
  subject user r = do
    user_id ← extract_user_id r.authorization
    pure (who_of (client_ip r.forwarded_for r.host) user_id)

  -- The first request of a window sets the key's time to live.
  unfoldable pub set_expiry : Bool → Text → ℕ → Action env (Unit {0})
  set_expiry false key window = pure tt
  set_expiry true key window = request env (λ e. (tt, counting.expire key (window * 2) e))

  -- The count of a request under its key, and the verdict.
  unfoldable pub count_request : Rule → Text → Action env Verdict
  count_request rule key = do
    current ← request env (counting.incr key)
    set_expiry (current == 1) key rule.window_seconds
    pure (if ltb rule.max_requests current then too_many_requests rule.window_seconds else passed)

  -- The `try` block.
  unfoldable pub check_limit : Incoming → Action env Verdict
  check_limit r = do
    let rule = rule_of r.path
    now ← external env env.utcnow
    let bucket = (now / 1_000_000) / rule.window_seconds
    who ← subject rule.rate_limit_type r
    count_request rule (rate_key who r.path bucket)

  -- `except Exception`: the request goes through.
  unfoldable pub fail_open : Result Verdict × World env → Verdict × World env
  fail_open (ok v, w) = (v, w)
  fail_open (err e, w) = (passed, w)

  -- `RateLimiterMiddleware.dispatch`, up to the call of the next handler.
  unfoldable pub limit : Incoming → World env → Verdict × World env
  limit r w = if r.is_options then (passed, w) else fail_open (check_limit r w)
