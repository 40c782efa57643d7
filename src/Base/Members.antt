-- ===== src/Base/Members.antt =====
-- Membership with its witness, and what does not depend on the order of a list.
use mathlib.Core.List.{List, [], ◌∷◌, map, Permᴰ}
use Prim.Native.Nat.{ℕ}
use mathlib.Core.Path.{◌≡◌, refl, sym, ap, ◌∙◌}
use mathlib.Core.Logic.{◌⊎◌, inl, inr}
use mathlib.Core.Bool.{Bool, true, false, false≢true}
use mathlib.Core.Option.{some}
use native.Mathlib.Omega.{arith}
use ticket_booking.Base.Tests.{Bool-cases}
use ticket_booking.Base.Lists.{length, filter, any, head?, All, sum}

module _ {A : Type 0} where
  abbrev pub In : A → List A → Type 0
  In a [] = ⊥
  In a (x ∷ xs) = (x ≡ a) ⊎ In a xs

  pub In-perm : {xs ys : List A} (a : A) → Permᴰ xs ys → In a xs → In a ys
  In-perm a Permᴰ.nil h = h
  In-perm a (Permᴰ.cons e p) (inl h) = inl (sym e ∙ h)
  In-perm a (Permᴰ.cons e p) (inr h) = inr (In-perm a p h)
  In-perm a (Permᴰ.swap e f) (inl h) = inr (inl (sym e ∙ h))
  In-perm a (Permᴰ.swap e f) (inr (inl h)) = inl (sym f ∙ h)
  In-perm a (Permᴰ.swap e f) (inr (inr h)) = inr (inr h)
  In-perm a (Permᴰ.trans p q) h = In-perm a q (In-perm a p h)

  pub In-filter : (p : A → Bool) (a : A) (xs : List A) → In a (filter p xs) → In a xs × (p a ≡ true)
  In-filter p a [] h = absurd h
  In-filter p a (x ∷ xs) h = ground (arith, In-filter p a xs)

  pub filter-In : (p : A → Bool) (a : A) (xs : List A) → In a xs → p a ≡ true → In a (filter p xs)
  filter-In p a [] m h = absurd m
  filter-In p a (x ∷ xs) (inl e) h = rw (ap p e ∙ h) (inl e)
  filter-In p a (x ∷ xs) (inr m) h = elim (Bool-cases (p x)) [
    | inl f ↦ rw f (inr (filter-In p a xs m h))
    | inr f ↦ rw f (filter-In p a xs m h)
  ]

  pub In-head? : (a : A) (xs : List A) → head? xs ≡ some a → In a xs
  In-head? a [] e = cc
  In-head? a (x ∷ xs) e = inl (cc)

  pub All-In {κ} : (P : A → Type κ) (a : A) (xs : List A) → All P xs → In a xs → P a
  All-In P a [] h m = absurd m
  All-In P a (x ∷ xs) h (inl e) = rw (← e) (h.0)
  All-In P a (x ∷ xs) h (inr m) = All-In P a xs h.1 m

  pub any-perm : {xs ys : List A} (p : A → Bool) → Permᴰ xs ys → any p xs ≡ any p ys
  any-perm p Permᴰ.nil = refl
  any-perm p (Permᴰ.cons e q) = ground (arith, ap p e, any-perm p q)
  any-perm p (Permᴰ.swap e f) = ground (arith, ap p e, ap p f)
  any-perm p (Permᴰ.trans q r) = any-perm p q ∙ any-perm p r

  pub length-perm : {xs ys : List A} → Permᴰ xs ys → length xs ≡ length ys
  length-perm Permᴰ.nil = refl
  length-perm (Permᴰ.cons e q) = omega (arith, length-perm q)
  length-perm (Permᴰ.swap e f) = refl
  length-perm (Permᴰ.trans q r) = length-perm q ∙ length-perm r

  pub sum-perm : {xs ys : List A} (f : A → ℕ) → Permᴰ xs ys → sum (map f xs) ≡ sum (map f ys)
  sum-perm f Permᴰ.nil = refl
  sum-perm f (Permᴰ.cons e q) = omega (arith, ap f e, sum-perm f q)
  sum-perm f (Permᴰ.swap e g) = omega (arith, ap f e, ap f g)
  sum-perm f (Permᴰ.trans q r) = sum-perm f q ∙ sum-perm f r

  pub any-map :
      {B : Type 0} (f : A → B) (p : B → Bool) (xs : List A)
      → any p (map f xs) ≡ any (λ a. p (f a)) xs
  any-map f p [] = refl
  any-map f p (x ∷ xs) = rw (any-map f p xs)

  pub map-cong-All :
      {B : Type 0} (f g : A → B) (xs : List A) → All (λ a. f a ≡ g a) xs → map f xs ≡ map g xs
  map-cong-All f g [] h = refl
  map-cong-All f g (x ∷ xs) h = rw (h.0, map-cong-All f g xs h.1)

  pub All-map {κ ι} :
      {B : Type 0} (P : A → Type κ) (Q : B → Type ι) (g : A → B) (xs : List A)
      → ((a : A) → In a xs → P a → Q (g a))
      → All P xs
      → All Q (map g xs)
  All-map P Q g [] h a = tt
  All-map P Q g (x ∷ xs) h a = (h x (inl refl) a.0, All-map P Q g xs (λ y m. h y (inr m)) a.1)

  pub any-In : (p : A → Bool) (xs : List A) → any p xs ≡ true → (a : A) × In a xs × (p a ≡ true)
  any-In p [] e = absurd (false≢true e)
  any-In p (x ∷ xs) e = elim (Bool-cases (p x)) [
    | inl h ↦ (x, inl refl, h)
    | inr h ↦ (let r = any-In p xs (rw h at e) in (r.0, inr (r.1), r.2))
  ]

  pub any-false-In : (p : A → Bool) (a : A) (xs : List A) → any p xs ≡ false → In a xs → p a ≡ false
  any-false-In p a [] e m = absurd m
  any-false-In p a (x ∷ xs) e (inl i) = rw (← i) (ground arith)
  any-false-In p a (x ∷ xs) e (inr m) = any-false-In p a xs (ground arith) m

  pub In-any : (p : A → Bool) (a : A) (xs : List A) → In a xs → p a ≡ true → any p xs ≡ true
  In-any p a [] m e = absurd m
  In-any p a (x ∷ xs) (inl i) e = ground (arith, ap p i)
  In-any p a (x ∷ xs) (inr m) e = ground (arith, In-any p a xs m e)

  pub In-All {κ} : (P : A → Type κ) (xs : List A) → ((a : A) → In a xs → P a) → All P xs
  In-All P [] h = tt
  In-All P (x ∷ xs) h = (h x (inl refl), In-All P xs (λ a m. h a (inr m)))
