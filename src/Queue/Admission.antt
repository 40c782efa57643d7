-- ===== src/Queue/Admission.antt =====
-- The queue is served from its front.
use ticket_booking.Base.{
  ◌≡◌, refl, sym, ◌∙◌, ap, inl, inr, Bool, true, false, some, List, [], ◌∷◌, ◌++◌, ◌&&◌, ◌==◌,
  ==_iff, Text, text_eq_iff, arith, ◌⊎◌, Bool-cases, Option-cases,
}
use ticket_booking.Exceptions.{ok, err, redis_error}
use ticket_booking.Env.{Env}
use ticket_booking.Action.{World}
use ticket_booking.Keys.{queue_key}
use ticket_booking.Queue.{SortedSets, index_of, without, consume_script, consume_from_queue_atomic}

module _ (env : Env) (zs : SortedSets env) where
  front : (u : Text) (xs : List Text) → index_of u xs ≡ some 0 → xs ≡ u ∷ without u xs
  front u [] h = cc
  front u (x ∷ xs) h = ground (arith, text_eq_iff x u)

  -- The script takes a user out exactly when that user is at the front, and else changes nothing.
  pub data Served (k u : Text) (e : env.E) (x : Bool × env.E) : Type 0 where
    taken : x.0 ≡ true → zs.members k e ≡ u ∷ zs.members k x.1 → Served k u e x
    left : x.0 ≡ false → ¬ (index_of u (zs.members k e) ≡ some 0) → x.1 ≡ e → Served k u e x

  pub consume_script-Served : (k u : Text) (e : env.E) → Served k u e (consume_script env zs k u e)
  unfolding consume_script
  consume_script-Served k u e = elim (Option-cases (zs.zrank k u e)) [
    | inl f ↦ rw (f, consume_script) (left refl (λ h. cc (f, zs.zrank_lem k u e, h)) refl)
    | inr (i, f) ↦ elim (Bool-cases (i == 0)) [
      | inl g ↦
          rw (f, consume_script, g)
            (taken refl (
              front u (zs.members k e) (sym (zs.zrank_lem k u e) ∙ f ∙ ap some ((==_iff i 0).0 g))
              ∙ ap (λ xs. u ∷ xs) (sym (zs.zrem_lem k u e))))
      | inr g ↦
          rw (f, consume_script, g) (left refl (λ h. ground (arith, f, zs.zrank_lem k u e, h)) refl)
    ]
  ]

  -- The users whom the script lets in, one after another, until one of them is refused.
  abbrev pub admit : Text → List Text → env.E → Bool × env.E
  admit k [] e = (true, e)
  admit k (u ∷ us) e =
      let (served, e') = consume_script env zs k u e in
      let (rest, e'') = admit k us e' in (served && rest, e'')

  -- Users whom the consumption script takes out one after another, none of them refused, are
  -- the first of the queue in its order, and those behind them stay in theirs.
  pub admit_fifo :
      (k : Text) (us : List Text) (e : env.E)
      → (admit k us e).0 ≡ true
      → zs.members k e ≡ us ++ zs.members k (admit k us e).1
  admit_fifo k [] e h = refl
  admit_fifo k (u ∷ us) e h =
      go (consume_script env zs k u e) h (consume_script-Served k u e) (admit_fifo k us)
    where
      go :
          (x : Bool × env.E)
          → (x.0 && (admit k us x.1).0) ≡ true
          → Served k u e x
          → ((e' : env.E)
              → (admit k us e').0 ≡ true
              → zs.members k e' ≡ us ++ zs.members k (admit k us e').1)
          → zs.members k e ≡ u ∷ (us ++ zs.members k (admit k us x.1).1)
      go (false, e') q s rest = cc
      go (true, e') q (left f g same) rest = cc
      go (true, e') q (taken f g) rest = g ∙ ap (λ xs. u ∷ xs) (rest e' q)

  -- A consumption takes a user out and reports it exactly when the queue, as Redis then has
  -- it, begins with that user; otherwise, also when Redis is not reached, the queue is
  -- unchanged.
  pub consume_from_queue_atomic-front :
      (event_id u : Text) (w : World env)
      → let before = zs.members (queue_key event_id) (env.reach w.outside).1 in
        let x = consume_from_queue_atomic env zs event_id u w in
        let after = zs.members (queue_key event_id) x.1.outside in
        (((x.0 ≡ ok true) × (before ≡ u ∷ after))
          ⊎ ((x.0 ≡ ok false) × (¬ (index_of u before ≡ some 0)) × (after ≡ before)))
        ⊎ ((x.0 ≡ err redis_error) × (after ≡ before))
  unfolding consume_from_queue_atomic
  consume_from_queue_atomic-front event_id u w = elim (Bool-cases (env.reach w.outside).0) [
    | inr f ↦ rw f (inr (refl, refl))
    | inl f ↦ rw f (
        inl (
          go (consume_script env zs (queue_key event_id) u (env.reach w.outside).1)
            (consume_script-Served (queue_key event_id) u (env.reach w.outside).1)))
  ]
    where
      go :
          (x : Bool × env.E)
          → Served (queue_key event_id) u (env.reach w.outside).1 x
          → let before = zs.members (queue_key event_id) (env.reach w.outside).1 in
            let after = zs.members (queue_key event_id) x.1 in
            ((ok x.0 ≡ ok true) × (before ≡ u ∷ after))
            ⊎ ((ok x.0 ≡ ok false) × (¬ (index_of u before ≡ some 0)) × (after ≡ before))
      go (b, e') (taken f g) = inl (ap ok f, g)
      go (b, e') (left f g same) = inr (ap ok f, g, ap (zs.members (queue_key event_id)) same)
