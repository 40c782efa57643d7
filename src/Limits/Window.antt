-- ===== src/Limits/Window.antt =====
-- How many requests one key lets through.
use ticket_booking.Base.{
  ℕ, zero, suc, ◌≡◌, refl, sym, ◌∙◌, ap, subst, Bool, true, false, not, ◌*◌, ◌-◌, List, [], ◌∷◌,
  Text, min, ltb, ◌==◌, if◌then◌else◌, arith, count,
}
use ticket_booking.Exceptions.{Result, ok, err}
use ticket_booking.Env.{Env}
use ticket_booking.Action.{World, Action, request, pure}
use ticket_booking.Action.Rules.{bind_result}
use ticket_booking.Tokens.{Jwt}
use ticket_booking.Limits.{
  Rule, Counting, Verdict, passed, too_many_requests, set_expiry, count_request,
}

abbrev pub is_passed : Result Verdict → Bool
is_passed (ok passed) = true
is_passed _ = false

module _ (env : Env) (counting : Counting env) (jwt : Jwt) where
  -- Redis is up: the way to it changes nothing.
  abbrev pub IsUp : Type 0
  IsUp = (e : env.E) → env.reach e ≡ (true, e)

  -- The verdicts on requests that come one after another under the same key.
  unfoldable pub verdicts : ℕ → Rule → Text → World env → List (Result Verdict)
  verdicts zero rule key w = []
  verdicts (suc n) rule key w =
      let (v, w') = count_request env counting jwt rule key w in v ∷ verdicts n rule key w'

  request_up :
      {A : Type 0} (f : env.E → A × env.E) (w : World env)
      → IsUp
      → request env f w ≡ (ok (f w.outside).0, record w { outside = (f w.outside).1 })
  request_up f w up = rw (up w.outside) refl

  set_expiry-value :
      (b : Bool) (key : Text) (window : ℕ) (w : World env)
      → IsUp
      → let x = set_expiry env counting jwt b key window w in
        (x.0 ≡ ok tt) × (counting.value key x.1.outside ≡ counting.value key w.outside)
  unfolding set_expiry
  set_expiry-value false key window w up = (refl, refl)
  set_expiry-value true key window w up =
      rw (up w.outside) (refl, counting.expire-value key (window * 2) w.outside)

  verdict : Rule → ℕ → Result (Unit {0}) × World env → Result Verdict × World env
  verdict rule current = bind_result {env = env} λ _.
      pure (if ltb rule.max_requests current then too_many_requests rule.window_seconds else passed)

  verdict-value :
      (rule : Rule) (current : ℕ) (x : Result (Unit {0}) × World env)
      → x.0 ≡ ok tt
      → ((verdict rule current x).1 ≡ x.1)
        × (is_passed (verdict rule current x).0 ≡ not (ltb rule.max_requests current))
  unfolding verdict
  verdict-value rule current (ok _, w) h = (refl, ground arith)
  verdict-value rule current (err e, w) h = cc

  pub count_request-value :
      (rule : Rule) (key : Text) (w : World env)
      → IsUp
      → let x = count_request env counting jwt rule key w in
        (counting.value key x.1.outside ≡ suc (counting.value key w.outside))
        × (is_passed x.0 ≡ not (ltb rule.max_requests (suc (counting.value key w.outside))))
  unfolding count_request verdict
  count_request-value rule key w up =
      let n = (counting.incr key w.outside).0 in
      let w' : World env = record w { outside = (counting.incr key w.outside).1 } in
      let (done, kept) = set_expiry-value (n == 1) key rule.window_seconds w' up in
      let (same, v) =
        verdict-value rule n (set_expiry env counting jwt (n == 1) key rule.window_seconds w')
          done in
      subst
        (λ x.
          (counting.value key (bind_result {env = env} rest x).1.outside
            ≡ suc (counting.value key w.outside))
          × (is_passed (bind_result {env = env} rest x).0
              ≡ not (ltb rule.max_requests (suc (counting.value key w.outside)))))
        (sym (request_up (counting.incr key) w up))
        (
          ap (λ z. counting.value key z.outside) same ∙ kept ∙ counting.incr-value key w.outside,
          v ∙ ap (λ m. not (ltb rule.max_requests m)) (counting.incr_lem key w.outside),
        )
    where
      rest : ℕ → Action env Verdict
      rest current w' =
          verdict rule current
            (set_expiry env counting jwt (current == 1) key rule.window_seconds w')

  -- While Redis is up, of any number of requests counted under one key exactly as many go
  -- through as the limit leaves after those that the key has counted before.
  pub verdicts-count :
      (n : ℕ) (rule : Rule) (key : Text) (w : World env)
      → IsUp
      → count is_passed (verdicts n rule key w)
        ≡ min n (rule.max_requests - counting.value key w.outside)
  unfolding verdicts
  verdicts-count zero rule key w up = omega arith
  verdicts-count (suc n) rule key w up =
      let (counted, let_through) = count_request-value rule key w up in
      let rest = verdicts-count n rule key (count_request env counting jwt rule key w).1 up in
      rw let_through (ground (arith, counted, rest))
