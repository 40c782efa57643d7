-- ===== src/Lock/Laws.antt =====
-- One lock under what Redis promises of SET NX, GET and DEL.
use ticket_booking.Base.{
  ℕ, zero, suc, ◌*◌, min, ◌≡◌, refl, sym, subst, ◌∙◌, ap, Bool, true, false, none, some, List, [],
  ◌∷◌, Text, text_eq, text_eq_iff, if◌then◌else◌,
}
use ticket_booking.Exceptions.{Result, ok}
use ticket_booking.Env.{Env}
use ticket_booking.Action.{Action, World, ◌>>=◌, pure}
use ticket_booking.Action.Rules.{bind_result, request-up}
use ticket_booking.Lock.{release_script, back_off, attempts}

-- Redis answers; SET NX sets a key that has no value and leaves one that has; DEL removes a key and
-- says that there was one; no key expires while this process asks, sleeps or makes a UUID; a UUID is
-- written with some characters.
pub record LockLaws (env : Env) : Type 0 where
  pub up : (e : env.E) → (env.reach e).0 ≡ true
  pub get-reach : (k : Text) (e : env.E) → env.get k (env.reach e).1 ≡ env.get k e
  pub get-sleep : (k : Text) (ms : ℕ) (e : env.E) → env.get k (env.sleep ms e) ≡ env.get k e
  pub get-uuid4 : (k : Text) (e : env.E) → env.get k (env.uuid4 e).1 ≡ env.get k e
  pub set_nx-free :
      (k v : Text) (ttl : ℕ) (e : env.E)
      → env.get k e ≡ none
      → ((env.set_nx k v ttl e).0 ≡ true) × (env.get k (env.set_nx k v ttl e).1 ≡ some v)
  pub set_nx-taken :
      (k v u : Text) (ttl : ℕ) (e : env.E)
      → env.get k e ≡ some u
      → env.set_nx k v ttl e ≡ (false, e)
  pub del-taken :
      (k u : Text) (e : env.E)
      → env.get k e ≡ some u
      → ((env.del k e).0 ≡ 1) × (env.get k (env.del k e).1 ≡ none)
  pub written : (u : ℕ) → (c : ℕ) × (s : Text) × (env.uuid_str u ≡ c ∷ s)

module _ (env : Env) (laws : LockLaws env) where
  -- The script of the owner removes the key, and that of any other owner nothing.
  pub release_script-owner :
      (k v : Text) (e : env.E)
      → env.get k e ≡ some v
      → ((release_script env k v e).0 ≡ 1) × (env.get k (release_script env k v e).1 ≡ none)
  unfolding release_script
  release_script-owner k v e h =
      rw (release_script, h, (text_eq_iff v v).1 refl) (laws.del-taken k v e h)

  pub release_script-other :
      (k u v : Text) (e : env.E)
      → env.get k e ≡ some u
      → text_eq u v ≡ false
      → release_script env k v e ≡ (0, e)
  unfolding release_script
  release_script-other k u v e h f = rw (release_script, h, f) refl

  module _ (n : ℕ) (k v : Text) (ttl d : ℕ) where
    -- What follows the reply to SET.
    proceed : Bool → Action env Bool
    proceed result = if result then pure true else (back_off env n d >>= attempts env n k v ttl)

    asked : World env → Bool × env.E → Result Bool × World env
    unfolding proceed
    asked w p = bind_result proceed (ok p.0, record w { outside = p.1 })

    attempts-asked :
        (w : World env)
        → attempts env (suc n) k v ttl d w ≡ asked w (env.set_nx k v ttl (env.reach w.outside).1)
    unfolding attempts asked proceed
    attempts-asked w =
        ap (bind_result proceed) (request-up env (env.set_nx k v ttl) w (laws.up w.outside))

    asked-free :
        (w : World env) (p : Bool × env.E)
        → (p.0 ≡ true) × (env.get k p.1 ≡ some v)
        → ((asked w p).0 ≡ ok true) × (env.get k (asked w p).1.outside ≡ some v)
    unfolding asked proceed
    asked-free w (true, e) (h, g) = (refl, g)
    asked-free w (false, e) (h, g) = cc

    -- A free key is taken at the first attempt.
    pub attempts-free :
        (w : World env)
        → env.get k w.outside ≡ none
        → let x = attempts env (suc n) k v ttl d w in
          (x.0 ≡ ok true) × (env.get k x.1.outside ≡ some v)
    attempts-free w h =
        subst (λ x. (x.0 ≡ ok true) × (env.get k x.1.outside ≡ some v)) (sym (attempts-asked w))
          (asked-free w _ (laws.set_nx-free k v ttl _ (laws.get-reach k w.outside ∙ h)))

    asked-outside :
        (w : World env) (p : Bool × env.E) → p.0 ≡ true → (asked w p).1 ≡ record w { outside = p.1 }
    unfolding asked proceed
    asked-outside w (true, e) h = refl
    asked-outside w (false, e) h = cc

    -- That attempt is the only one.
    pub attempts-free-world :
        (w : World env)
        → env.get k w.outside ≡ none
        → (attempts env (suc n) k v ttl d w).1
          ≡ record w { outside = (env.set_nx k v ttl (env.reach w.outside).1).1 }
    attempts-free-world w h =
        ap (λ x. x.1) (attempts-asked w)
        ∙ asked-outside w _ (laws.set_nx-free k v ttl _ (laws.get-reach k w.outside ∙ h)).0

    -- After a refusal the key is as it was, and the wait follows.
    attempts-refused :
        (u : Text) (w : World env)
        → env.get k w.outside ≡ some u
        → attempts env (suc n) k v ttl d w
          ≡ (back_off env n d >>= attempts env n k v ttl)
              (record w { outside = (env.reach w.outside).1 })
    unfolding asked proceed
    attempts-refused u w h =
        attempts-asked w
        ∙ ap (asked w) (laws.set_nx-taken k v u ttl _ (laws.get-reach k w.outside ∙ h))

  -- The waits of an acquisition that fails.
  abbrev pub waits : ℕ → ℕ → List ℕ
  waits zero d = []
  waits (suc zero) d = []
  waits (suc (suc n)) d = d ∷ waits (suc n) (min (d * 2) 1000)

  -- The world outside after one attempt for each wait, and a last one.
  abbrev pub after : List ℕ → env.E → env.E
  after [] e = (env.reach e).1
  after (d ∷ ds) e = after ds (env.sleep d (env.reach e).1)

  -- A key that is taken is left alone; the attempts end after the waits.
  pub attempts-taken :
      (n : ℕ) (k v u : Text) (ttl d : ℕ) (w : World env)
      → env.get k w.outside ≡ some u
      → attempts env (suc n) k v ttl d w
        ≡ (ok false, record w { outside = after (waits (suc n) d) w.outside })
  unfolding attempts back_off
  attempts-taken zero k v u ttl d w h = attempts-refused zero k v ttl d u w h
  attempts-taken (suc n) k v u ttl d w h =
      attempts-refused (suc n) k v ttl d u w h
      ∙ attempts-taken n k v u ttl (min (d * 2) 1000)
          (record w { outside = env.sleep d (env.reach w.outside).1 })
          (laws.get-sleep k d _ ∙ laws.get-reach k w.outside ∙ h)
