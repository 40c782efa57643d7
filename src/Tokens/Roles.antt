-- ===== src/Tokens/Roles.antt =====
-- Which tokens open which door.
use ticket_booking.Base.{
  [], ℕ, ◌+◌, ◌*◌, ◌≡◌, refl, sym, ◌∙◌, ap, true, Option, none, some, ◌∷◌, Text, text_eq_iff, leb,
  arith,
}
use ticket_booking.Exceptions.{ok}
use ticket_booking.Env.{Env}
use ticket_booking.Action.{World}
use ticket_booking.Action.Rules.{bind-eq-ok}
use ticket_booking.Tokens.{
  Payload, Jwt, seconds, queue_type, access_type, create_queue_token, decode_token, unauthorized,
  has_type, bearer, require_type, checked, get_current_user, queue_token_of,
  get_user_from_queue_token,
}

module _ (env : Env) (jwt : Jwt) where
  -- A token that passes was decoded at some instant, and has the type that is asked for.
  abbrev pub IsProved : Text → Payload → Type 0
  IsProved expected p =
      (p.token_type ≡ some expected)
      × ((now : ℕ) × (token : Text) × (jwt.decode now token ≡ some p))

  has_type-eq : (expected : Text) (t : Option Text) → has_type expected t ≡ true → t ≡ some expected
  unfolding has_type
  has_type-eq expected none h = cc
  has_type-eq expected (some t) h = ap some ((text_eq_iff t expected).0 h)

  require_type-eq-ok :
      (expected : Text) (q p : Payload) (w : World env)
      → (require_type env jwt expected q w).0 ≡ ok p
      → (q ≡ p) × (has_type expected q.token_type ≡ true)
  unfolding require_type
  require_type-eq-ok expected q p w h = ground arith

  decoded :
      (token : Text) (w : World env) (q : Payload)
      → (unauthorized env jwt (decode_token env jwt token) w).0 ≡ ok q
      → jwt.decode (seconds (env.utcnow w.outside).0) token ≡ some q
  unfolding unauthorized decode_token
  decoded token w q h = ground arith

  checked-eq-ok :
      (expected token : Text) (w : World env) (p : Payload)
      → (checked env jwt expected token w).0 ≡ ok p
      → IsProved expected p
  unfolding checked
  checked-eq-ok expected token w p h =
      let (q, e, f) =
        bind-eq-ok (unauthorized env jwt (decode_token env jwt token))
          (require_type env jwt expected) w p h in
      let (same, fits) = require_type-eq-ok expected q p _ f in
      (
        ap (λ x. x.token_type) (sym same) ∙ has_type-eq expected _ fits,
        (_, token, decoded token w q e ∙ ap some same),
      )

  pub get_current_user-eq-ok :
      (authorization : Text) (w : World env) (p : Payload)
      → (get_current_user env jwt authorization w).0 ≡ ok p
      → IsProved access_type p
  unfolding get_current_user
  get_current_user-eq-ok authorization w p h =
      let (token, e, f) =
        bind-eq-ok (bearer env jwt authorization) (checked env jwt access_type) w p h in
      checked-eq-ok access_type token _ p f

  pub get_user_from_queue_token-eq-ok :
      (authorization queue_token : Option Text) (w : World env) (p : Payload)
      → (get_user_from_queue_token env jwt authorization queue_token w).0 ≡ ok p
      → IsProved queue_type p
  unfolding get_user_from_queue_token
  get_user_from_queue_token-eq-ok authorization queue_token w p h =
      let (token, e, f) =
        bind-eq-ok (queue_token_of env jwt authorization queue_token) (checked env jwt queue_type) w
          p h in
      checked-eq-ok queue_type token _ p f

  -- A payload that get_current_user returns is never one that get_user_from_queue_token
  -- returns: no token is both an access token and a queue token.
  pub roles_disjoint :
      (authorization : Text) (header queue_token : Option Text) (w w' : World env) (p : Payload)
      → (get_current_user env jwt authorization w).0 ≡ ok p
      → ¬ ((get_user_from_queue_token env jwt header queue_token w').0 ≡ ok p)
  roles_disjoint authorization header queue_token w w' p h g =
      let a = get_current_user-eq-ok authorization w p h in
      let b = get_user_from_queue_token-eq-ok header queue_token w' p g in cc (a.0, b.0)

  opened :
      (token : Text) (c : ℕ) (s : Text) (p : Payload) (w : World env)
      → token ≡ c ∷ s
      → jwt.decode (seconds (env.utcnow w.outside).0) token ≡ some p
      → p.token_type ≡ some queue_type
      → (get_user_from_queue_token env jwt none (some token) w).0 ≡ ok p
  unfolding get_user_from_queue_token queue_token_of checked unauthorized decode_token require_type
      has_type
  opened [] c s p w h e t = cc
  opened (d ∷ token) c s p w h e t = ground (arith, e, t)

  -- A queue token that was issued is accepted as the query parameter, with the user, event
  -- and position that it was issued for, while the clock is not past its expiry.
  pub queue_token_opens :
      (user_id event_id : Text) (position : Option ℕ) (w w' : World env) (token : Text)
      → (create_queue_token env jwt user_id event_id position w).0 ≡ ok token
      → leb
          (seconds (env.utcnow w'.outside).0)
          (seconds (env.utcnow w.outside).0 + jwt.queue_token_expiration_hours * 3600)
        ≡ true
      → (get_user_from_queue_token env jwt none (some token) w').0
        ≡ ok (record {
          sub = user_id;
          event_id = event_id;
          position = position;
          token_type = some queue_type;
          exp = seconds (env.utcnow w.outside).0 + jwt.queue_token_expiration_hours * 3600;
        })
  unfolding create_queue_token
  queue_token_opens user_id event_id position w w' token h live =
      let same : jwt.encode issued ≡ token = ground arith in
      let (c, s, e) = jwt.encode-cons issued in
      opened token c s issued w' (sym same ∙ e)
        (ap (jwt.decode (seconds (env.utcnow w'.outside).0)) (sym same)
          ∙ jwt.decode-encode _ issued live)
        refl
    where
      issued : Payload
      issued = record {
        sub = user_id;
        event_id = event_id;
        position = position;
        token_type = some queue_type;
        exp = seconds (env.utcnow w.outside).0 + jwt.queue_token_expiration_hours * 3600;
      }
