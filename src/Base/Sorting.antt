-- ===== src/Base/Sorting.antt =====
-- Sorting by a test, which an ORDER BY does, and the pages of a list.
use Prim.Native.Nat.{ℕ, zero, suc, ◌+◌, ◌≤◌}
use mathlib.Core.Path.{◌≡◌, refl, sym, ap, ◌∙◌}
use mathlib.Core.Logic.{◌⊎◌, inl, inr}
use mathlib.Core.Bool.{Bool, true, false}
use mathlib.Core.List.Permᴰ as Perm
use mathlib.Core.List.{List, [], ◌∷◌, ◌++◌, Permᴰ}
use native.Mathlib.Omega.{arith}
use ticket_booking.Base.Tests.{Bool-cases, if◌then◌else◌}
use ticket_booking.Base.Lists.{length}
use ticket_booking.Base.Members.{In, In-perm}

module _ {A : Type 0} where
  abbrev pub take : ℕ → List A → List A
  take zero xs = []
  take (suc n) [] = []
  take (suc n) (x ∷ xs) = x ∷ take n xs

  abbrev pub drop : ℕ → List A → List A
  drop zero xs = xs
  drop (suc n) [] = []
  drop (suc n) (x ∷ xs) = drop n xs

  take_nil : (n : ℕ) → take n [] ≡ []
  take_nil zero = refl
  take_nil (suc n) = refl

  pub take-add : (m n : ℕ) (xs : List A) → take (m + n) xs ≡ take m xs ++ take n (drop m xs)
  take-add zero n xs = ap (λ k. take k xs) {y = n} (omega arith)
  take-add (suc m) n [] = take_nil (suc m + n) ∙ sym (take_nil n)
  take-add (suc m) n (x ∷ xs) =
      ap (λ k. take k (x ∷ xs)) {y = suc (m + n)} (omega arith)
      ∙ ap (λ ys. x ∷ ys) (take-add m n xs)

  pub take_all : (n : ℕ) (xs : List A) → length xs ≤ n → take n xs ≡ xs
  take_all zero [] h = refl
  take_all zero (x ∷ xs) h = absurd (omega (arith, h))
  take_all (suc n) [] h = refl
  take_all (suc n) (x ∷ xs) h = ap (λ ys. x ∷ ys) (take_all n xs (omega (arith, h)))

  -- The pages 1 to n, one after another.
  abbrev pub pages : (ℕ → List A) → ℕ → List A
  pages f zero = []
  pages f (suc n) = pages f n ++ f (suc n)

  module _ (le : A → A → Bool) where
    abbrev pub insert : A → List A → List A
    insert x [] = x ∷ []
    insert x (y ∷ ys) = if le x y then x ∷ y ∷ ys else y ∷ insert x ys

    abbrev pub sort : List A → List A
    sort [] = []
    sort (x ∷ xs) = insert x (sort xs)

    insert-Perm : (x : A) (ys : List A) → Permᴰ (insert x ys) (x ∷ ys)
    insert-Perm x [] = Perm.refl (x ∷ [])
    insert-Perm x (y ∷ ys) = elim (Bool-cases (le x y)) [
      | inl e ↦ rw e (Perm.refl (x ∷ y ∷ ys))
      | inr e ↦ rw e (Permᴰ.trans (Permᴰ.cons refl (insert-Perm x ys)) (Permᴰ.swap refl refl))
    ]

    pub sort-Perm : (xs : List A) → Permᴰ (sort xs) xs
    sort-Perm [] = Permᴰ.nil
    sort-Perm (x ∷ xs) = Permᴰ.trans (insert-Perm x (sort xs)) (Permᴰ.cons refl (sort-Perm xs))

    -- A test that orders any two items of a list, and no two of them both ways.
    pub record Orders (xs : List A) : Type 0 where
      pub total : (a b : A) → (le a b ≡ true) ⊎ (le b a ≡ true)
      pub trans : (a b c : A) → le a b ≡ true → le b c ≡ true → le a c ≡ true
      pub antisym : (a b : A) → In a xs → In b xs → le a b ≡ true → le b a ≡ true → a ≡ b

    -- Where the first comes before the second, the order of the two insertions is the same.
    insert-commute :
        (x y : A) (zs : List A)
        → ((a b c : A) → le a b ≡ true → le b c ≡ true → le a c ≡ true)
        → le x y ≡ true
        → le y x ≡ false
        → insert x (insert y zs) ≡ insert y (insert x zs)
    insert-commute x y [] t e f = rw (e, f) refl
    insert-commute x y (z ∷ zs) t e f = elim (Bool-cases (le y z)) [
      | inl g ↦ rw (g, t x y z e g) (rw (e, f) (rw g refl))
      | inr g ↦ elim (Bool-cases (le x z)) [
        | inl h ↦ rw (g, h) (rw f (rw g refl))
        | inr h ↦ rw (g, h) (rw g (ap (λ ys. z ∷ ys) (insert-commute x y zs t e f)))
      ]
    ]

    swapped :
        (x y : A) (xs zs : List A)
        → Orders xs
        → In x xs
        → In y xs
        → insert x (insert y zs) ≡ insert y (insert x zs)
    swapped x y xs zs o m m' = elim (Bool-cases (le x y)) [
      | inl e ↦ elim (Bool-cases (le y x)) [
        | inl f ↦
            let same : x ≡ y = o.antisym x y m m' e f in
            ap (λ z. insert z (insert y zs)) same ∙ ap (λ z. insert y (insert z zs)) (sym same)
        | inr f ↦ insert-commute x y zs o.trans e f
      ]
      | inr e ↦ elim (o.total x y) [
        | inl g ↦ absurd (ground (arith, e, g))
        | inr g ↦ sym (insert-commute y x zs o.trans g e)
      ]
    ]

    Orders-perm : {xs ys : List A} → Permᴰ xs ys → Orders xs → Orders ys
    Orders-perm p o = record {
      total = o.total;
      trans = o.trans;
      antisym = λ a b m m'. o.antisym a b (In-perm a (Perm.symm p) m) (In-perm b (Perm.symm p) m');
    }

    Orders-tail : (x : A) (xs : List A) → Orders (x ∷ xs) → Orders xs
    Orders-tail x xs o = record {
      total = o.total;
      trans = o.trans;
      antisym = λ a b m m'. o.antisym a b (inr m) (inr m');
    }

    -- Then the sorted list does not depend on the order that the rows came in.
    pub sort-perm : {xs ys : List A} → Permᴰ xs ys → Orders xs → sort xs ≡ sort ys
    sort-perm Permᴰ.nil o = refl
    sort-perm (Permᴰ.cons {a} {b} {l₁} e p) o =
        ap (λ z. insert z (sort l₁)) e ∙ ap (insert b) (sort-perm p (Orders-tail a l₁ o))
    sort-perm (Permᴰ.swap {a} {b} {a'} {b'} {l} e f) o =
        swapped a b (a ∷ b ∷ l) (sort l) o (inl refl) (inr (inl refl))
        ∙ ap (λ z. insert z (insert a (sort l))) f
        ∙ ap (λ z. insert a' (insert z (sort l))) e
    sort-perm (Permᴰ.trans p q) o = sort-perm p o ∙ sort-perm q (Orders-perm p o)
