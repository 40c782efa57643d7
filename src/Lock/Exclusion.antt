-- ===== src/Lock/Exclusion.antt =====
-- Any number of processes at one lock: who is inside, and what the key has.
use ticket_booking.Base.{
  ℕ, suc, ◌⊎◌, ◌≡◌, refl, sym, ◌∙◌, ap, inl, inr, true, false, Option, none, some, Text, text_eq,
  ◌==◌, ==_iff, Bool-cases, Option-cases, if◌then◌else◌,
}
use mathlib.Core.Bool.{false≢true}
use ticket_booking.Env.{Env}
use ticket_booking.Action.{World}
use ticket_booking.Exceptions.{ok}
use ticket_booking.Lock.{RedisLock, release_script, acquire}
use ticket_booking.Lock.Laws.{LockLaws, release_script-owner, release_script-other}
use ticket_booking.Lock.Ownership.{acquire-release, acquire-taken}

-- A process inside the lock knows the value that it has written.
pub record Crowd (env : Env) : Type 0 where
  pub outside : env.E
  pub inside : ℕ → Option Text

abbrev pub put_at : ℕ → Option Text → (ℕ → Option Text) → ℕ → Option Text
put_at i x f j = if j == i then x else f j

put_at-here : (i : ℕ) (x : Option Text) (f : ℕ → Option Text) → put_at i x f i ≡ x
put_at-here i x f = ap (λ b. if b then x else f i) ((==_iff i i).1 refl)

put_at-cases :
    (i j : ℕ) (x y : Option Text) (f : ℕ → Option Text)
    → put_at i x f j ≡ y
    → ((j ≡ i) × (x ≡ y)) ⊎ (((j == i) ≡ false) × (f j ≡ y))
put_at-cases i j x y f h = elim (Bool-cases (j == i)) [
  | inl e ↦ inl ((==_iff j i).0 e, ap (λ b. if b then x else f j) (sym e) ∙ h)
  | inr e ↦ inr (e, ap (λ b. if b then x else f j) (sym e) ∙ h)
]

module _ (env : Env) (key : Text) (ttl : ℕ) where
  -- One command that Redis runs for a process. `enters` is the SET of `acquire` that succeeds, with
  -- the value that the process made; `leaves` is the script of `release`; `works` is all that does
  -- not change the key, a SET that is refused included.
  pub data Turn (s : Crowd env) : Crowd env → Type 0 where
    enters :
        (i : ℕ) (value : Text)
        → s.inside i ≡ none
        → (env.set_nx key value ttl s.outside).0 ≡ true
        → Turn s (record {
          outside = (env.set_nx key value ttl s.outside).1;
          inside = put_at i (some value) s.inside;
        })
    leaves :
        (i : ℕ) (value : Text)
        → s.inside i ≡ some value
        → Turn s (record {
          outside = (release_script env key value s.outside).1;
          inside = put_at i none s.inside;
        })
    works :
        (e : env.E)
        → env.get key e ≡ env.get key s.outside
        → Turn s (record { outside = e; inside = s.inside })

  -- Some commands, from a free key with nobody inside.
  pub data Reached : Crowd env → Type 0 where
    opens :
        (e : env.E) → env.get key e ≡ none → Reached (record { outside = e; inside = λ _. none })
    turns : {s t : Crowd env} → Reached s → Turn s t → Reached t

  -- The key has the value of the one who is inside, and none if nobody is.
  record IsGuarded (s : Crowd env) : Type 0 where
    owned : (i : ℕ) (v : Text) → s.inside i ≡ some v → env.get key s.outside ≡ some v
    alone : (i j : ℕ) (u v : Text) → s.inside i ≡ some u → s.inside j ≡ some v → i ≡ j
    used : (v : Text) → env.get key s.outside ≡ some v → (i : ℕ) × (s.inside i ≡ some v)

  module _ (laws : LockLaws env) where
    none-not-some : {v : Text} → none ≡ some v → ⊥
    none-not-some h = cc

    -- Where SET NX succeeds, the key was free.
    was_free :
        (value : Text) (e : env.E) → (env.set_nx key value ttl e).0 ≡ true → env.get key e ≡ none
    was_free value e h = elim (Option-cases (env.get key e)) [
      | inl q ↦ q
      | inr (u, q) ↦ cc (rw (laws.set_nx-taken key value u ttl e q) at h)
    ]

    nobody :
        {s : Crowd env} → IsGuarded s → env.get key s.outside ≡ none → (i : ℕ) → s.inside i ≡ none
    nobody {s} g free i = elim (Option-cases (s.inside i)) [
      | inl q ↦ q
      | inr (v, q) ↦ cc (g.owned i v q)
    ]

    is_entrant :
        (i j : ℕ) (value v : Text) (s : Crowd env)
        → ((k : ℕ) → s.inside k ≡ none)
        → put_at i (some value) s.inside j ≡ some v
        → (j ≡ i) × (value ≡ v)
    is_entrant i j value v s empty h = elim (put_at-cases i j (some value) (some v) s.inside h) [
      | inl (e, q) ↦ (e, cc)
      | inr (e, q) ↦ absurd (none-not-some (sym (empty j) ∙ q))
    ]

    entered-IsGuarded :
        (i : ℕ) (value : Text) (s : Crowd env)
        → IsGuarded s
        → (env.set_nx key value ttl s.outside).0 ≡ true
        → IsGuarded (record {
          outside = (env.set_nx key value ttl s.outside).1;
          inside = put_at i (some value) s.inside;
        })
    entered-IsGuarded i value s g h =
        let free = was_free value s.outside h in
        let empty = nobody g free in
        let taken = (laws.set_nx-free key value ttl s.outside free).1 in
        record {
          owned = λ j v q. taken ∙ ap some (is_entrant i j value v s empty q).1;
          alone = λ j k u v p q.
              (is_entrant i j value u s empty p).0 ∙ sym (is_entrant i k value v s empty q).0;
          used = λ v q. (i, put_at-here i (some value) s.inside ∙ sym taken ∙ q);
        }

    left_empty :
        (i j : ℕ) (value v : Text) (s : Crowd env)
        → IsGuarded s
        → s.inside i ≡ some value
        → put_at i none s.inside j ≡ some v
        → ⊥
    left_empty i j value v s g h p = elim (put_at-cases i j none (some v) s.inside p) [
      | inl (e, q) ↦ none-not-some q
      | inr (e, q) ↦ false≢true (sym e ∙ (==_iff j i).1 (g.alone j i v value q h))
    ]

    left-IsGuarded :
        (i : ℕ) (value : Text) (s : Crowd env)
        → IsGuarded s
        → s.inside i ≡ some value
        → IsGuarded (record {
          outside = (release_script env key value s.outside).1;
          inside = put_at i none s.inside;
        })
    left-IsGuarded i value s g h =
        let free = (release_script-owner env laws key value s.outside (g.owned i value h)).1 in
        record {
          owned = λ j v q. absurd (left_empty i j value v s g h q);
          alone = λ j k u v p q. absurd (left_empty i j value u s g h p);
          used = λ v q. absurd (none-not-some (sym free ∙ q));
        }

    guarded : {s : Crowd env} → Reached s → IsGuarded s
    guarded (opens e h) = record {
      owned = λ i v q. absurd (none-not-some q);
      alone = λ i j u v p q. absurd (none-not-some p);
      used = λ v q. absurd (none-not-some (sym h ∙ q));
    }
    guarded (turns {s} a (enters i value n h)) = entered-IsGuarded i value s (guarded a) h
    guarded (turns {s} a (leaves i value h)) = left-IsGuarded i value s (guarded a) h
    guarded (turns {s} a (works e h)) =
        let g = guarded a in
        record {
          owned = λ i v q. h ∙ g.owned i v q;
          alone = g.alone;
          used = λ v q. g.used v (sym h ∙ q);
        }

    unused :
        {s : Crowd env} → IsGuarded s → ((i : ℕ) → s.inside i ≡ none) → env.get key s.outside ≡ none
    unused {s} g empty = elim (Option-cases (env.get key s.outside)) [
      | inl q ↦ q
      | inr (v, q) ↦ let (i, p) = g.used v q in absurd (none-not-some (sym (empty i) ∙ p))
    ]

    -- Where Redis keeps what it promises of SET NX, GET and DEL and the key does not
    -- expire, in every interleaving of the commands of any number of processes no two of
    -- them are inside the lock, and the key has the value of the one that is. An
    -- acquisition then fails after all of its attempts, a release script with another value
    -- does nothing, and one with that value frees the key.
    pub exclusive :
        {s : Crowd env} (i j : ℕ) (u v z : Text) (n d : ℕ) (w : World env)
        → Reached s
        → s.inside i ≡ some u
        → s.inside j ≡ some v
        → text_eq u z ≡ false
        → (i ≡ j)
          × (env.get key s.outside ≡ some u)
          × ((value : Text) × ((acquire env
                  (record { key = key; ttl_ms = ttl; lock_value = none })
                  (suc n)
                  d
                  (record w { outside = s.outside })).0
                ≡ ok (false, record { key = key; ttl_ms = ttl; lock_value = some value })))
          × (release_script env key z s.outside ≡ (0, s.outside))
          × ((release_script env key u s.outside).0 ≡ 1)
          × (env.get key (release_script env key u s.outside).1 ≡ none)
    exclusive {s} i j u v z n d w r p q other =
        let held = (guarded r).owned i u p in
        let freed = release_script-owner env laws key u s.outside held in
        (
          (guarded r).alone i j u v p q,
          held,
          (
            env.uuid_str (env.uuid4 s.outside).0,
            ap (λ x. x.0)
                (acquire-taken env laws (record { key = key; ttl_ms = ttl; lock_value = none }) n d
                  u (record w { outside = s.outside }) held),
          ),
          release_script-other env laws key u z s.outside held other,
          freed.0,
          freed.1,
        )

    -- In every such interleaving, whenever nobody is inside, an acquisition of that key
    -- with at least one attempt gets it, so the lock is never lost.
    pub acquire_when_empty :
        {s : Crowd env} (lock : RedisLock) (n d : ℕ) (w : World env)
        → Reached s
        → ((i : ℕ) → s.inside i ≡ none)
        → lock.key ≡ key
        → w.outside ≡ s.outside
        → (value : Text) × ((acquire env lock (suc n) d w).0
            ≡ ok (true, record lock { lock_value = some value }))
          × (env.get key (acquire env lock (suc n) d w).1.outside ≡ some value)
    acquire_when_empty {s} lock n d w r empty same_key same =
        let (value, got, kept, back) = acquire-release env laws lock n d w (
          ap (λ k. env.get k w.outside) same_key
          ∙ ap (env.get key) same
          ∙ unused (guarded r) empty) in
        (
          value,
          got,
          ap (λ k. env.get k (acquire env lock (suc n) d w).1.outside) (sym same_key) ∙ kept,
        )
