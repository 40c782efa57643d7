-- ===== src/Tokens.antt =====
-- apps/core-api/src/auth/token.py and services/token_service.py, and the checks of tokens in
-- dependencies.py.
pub mod Roles
use ticket_booking.Base.{
  ℕ, zero, suc, ◌+◌, ◌*◌, ◌/◌, ◌≡◌, Bool, true, false, not, Option, none, some, List, [], ◌∷◌, ◌++◌,
  map, Text, codes, text_eq, ltb, leb, ◌==◌, ◌&&◌, ◌||◌, if◌then◌else◌,
}
use ticket_booking.Exceptions.{Error, Result, ok, err, value_error, http_exception}
use ticket_booking.Env.{Env}
use ticket_booking.Action.{Action, ◌>>=◌, ◌>>◌, pure, raise, or_raise, external, raise_if}

-- The payload of a token; a key that is absent is `none`. `exp` is in seconds.
pub record Payload : Type 0 where
  pub sub : Text
  pub event_id : Text
  pub position : Option ℕ
  pub token_type : Option Text
  pub exp : ℕ

-- jose's `jwt.encode` and `jwt.decode` with the secret key and the algorithm of the settings. A
-- payload that was encoded is decoded as it was, until it expires.
pub record Jwt : Type 0 where
  pub encode : Payload → Text
  pub decode : ℕ → Text → Option Payload
  pub decode-encode :
      (now : ℕ) (p : Payload) → leb now p.exp ≡ true → decode now (encode p) ≡ some p
  -- A token is three parts with dots between them.
  pub encode-cons : (p : Payload) → (c : ℕ) × (s : Text) × (encode p ≡ c ∷ s)
  pub queue_token_expiration_hours : ℕ
  pub jwt_expiration_hours : ℕ

abbrev pub seconds : ℕ → ℕ
seconds now = now / 1_000_000

abbrev pub queue_type : Text
queue_type = codes "queue"

abbrev pub access_type : Text
access_type = codes "access"

-- `\s` of `str.strip` in a header, which is Latin-1.
unfoldable pub is_space : ℕ → Bool
is_space c = (leb 9 c && leb c 13) || ((leb 28 c && leb c 32) || ((c == 133) || (c == 160)))

unfoldable pub lstrip : Text → Text
lstrip [] = []
lstrip (c ∷ s) = let rest = lstrip s in if is_space c then rest else c ∷ s

unfoldable pub reverse_onto : Text → Text → Text
reverse_onto [] t = t
reverse_onto (c ∷ s) t = reverse_onto s (c ∷ t)

-- `str.strip`
unfoldable pub strip : Text → Text
strip s = reverse_onto (lstrip (reverse_onto (lstrip s) [])) []

-- `str.lower` on a Latin-1 character.
unfoldable pub lower : ℕ → ℕ
lower c =
    if (leb 65 c && leb c 90) || ((leb 192 c && leb c 222) && not (c == 215)) then c + 32 else c

unfoldable pub starts_with : Text → Text → Bool
starts_with [] s = true
starts_with (c ∷ p) [] = false
starts_with (c ∷ p) (d ∷ s) = (c == d) && starts_with p s

unfoldable pub drop : ℕ → Text → Text
drop zero s = s
drop (suc n) [] = []
drop (suc n) (c ∷ s) = drop n s

-- `payload.get("type") == expected`
unfoldable pub has_type : Text → Option Text → Bool
has_type expected none = false
has_type expected (some t) = text_eq t expected

module _ (env : Env) (jwt : Jwt) where
  -- `create_queue_token`, `TokenService.issue_queue_token`
  unfoldable pub create_queue_token : Text → Text → Option ℕ → Action env Text
  create_queue_token user_id event_id position = do
    now ← external env env.utcnow
    let payload =
        let p : Payload = record {
          sub = user_id;
          event_id = event_id;
          position = position;
          token_type = some queue_type;
          exp = seconds now + jwt.queue_token_expiration_hours * 3600;
        } in
        p
    pure (jwt.encode payload)

  -- `create_access_token`, `TokenService.issue_access_token`
  unfoldable pub create_access_token : Text → Text → Action env Text
  create_access_token user_id event_id = do
    now ← external env env.utcnow
    let payload =
        let p : Payload = record {
          sub = user_id;
          event_id = event_id;
          position = none;
          token_type = some access_type;
          exp = seconds now + jwt.jwt_expiration_hours * 3600;
        } in
        p
    pure (jwt.encode payload)

  -- `decode_token`
  unfoldable pub decode_token : Text → Action env Payload
  decode_token token = do
    now ← external env env.utcnow
    or_raise (jwt.decode (seconds now) token) value_error

  -- `except ValueError as e: raise HTTPException(401)`
  unfoldable pub unauthorized : {A : Type 0} → Action env A → Action env A
  unauthorized m w = let (r, w') = m w in (hide r, w')
    where
      hide : {A : Type 0} → Result A → Result A
      hide (ok a) = ok a
      hide (err value_error) = err (http_exception 401)
      hide (err e) = err e

  -- What follows the `bearer ` of a header.
  unfoldable pub bearer : Text → Action env Text
  bearer authorization = do
    let auth_header = strip authorization
    raise_if (not (starts_with (codes "bearer ") (map lower auth_header))) (http_exception 401)
    pure (drop 7 auth_header)

  unfoldable pub require_type : Text → Payload → Action env Payload
  require_type expected payload = do
    raise_if (not (has_type expected payload.token_type)) (http_exception 401)
    pure payload

  unfoldable pub checked : Text → Text → Action env Payload
  checked expected token = unauthorized (decode_token token) >>= require_type expected

  -- `get_current_user`
  unfoldable pub get_current_user : Text → Action env Payload
  get_current_user authorization = bearer authorization >>= checked access_type

  -- The header if it is not empty, else the query parameter.
  unfoldable pub queue_token_of : Option Text → Option Text → Action env Text
  queue_token_of (some (c ∷ s)) queue_token = bearer (c ∷ s)
  queue_token_of _ (some (c ∷ s)) = pure (c ∷ s)
  queue_token_of _ _ = raise (http_exception 401)

  -- `get_user_from_queue_token`
  unfoldable pub get_user_from_queue_token : Option Text → Option Text → Action env Payload
  get_user_from_queue_token authorization queue_token =
      queue_token_of authorization queue_token >>= checked queue_type
