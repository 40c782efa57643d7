-- ===== src/Seeds/Found.antt =====
-- What the seeds look for before they store a row.
use ticket_booking.Base.{
  ◌≡◌, refl, ap, Bool, true, some, List, [], ◌∷◌, ◌++◌, any, ◌||◌, text_eq, In-any, In-filter,
  In-perm, In-head?, arith,
}
use ticket_booking.Models.{Tables}
use ticket_booking.Env.{Env}
use ticket_booking.Repositories.Reads.{select_first}
use ticket_booking.Seeds.{EventData, UserData}

pub any-append :
    {A : Type 0} (p : A → Bool) (xs ys : List A) → any p (xs ++ ys) ≡ (any p xs || any p ys)
any-append p [] ys = refl
any-append p (x ∷ xs) ys = ground (arith, any-append p xs ys)

pub append_nil : {A : Type 0} (xs : List A) → xs ++ [] ≡ xs
append_nil [] = refl
append_nil (x ∷ xs) = ap (λ ys. x ∷ ys) (append_nil xs)

-- An event of this name and a user with this email are stored.
abbrev pub HasEvent : Tables → EventData → Type 0
HasEvent t d = any (λ e. text_eq e.name d.name) t.events ≡ true

abbrev pub HasUser : Tables → UserData → Type 0
HasUser t u = any (λ v. text_eq v.email u.email) t.users ≡ true

module _ (env : Env) where
  pub found_any :
      {A : Type 0} (p : A → Bool) (rows : List A) (a : A)
      → select_first env p rows ≡ some a
      → any p rows ≡ true
  found_any {A} p rows a h =
      let (m, hit) = In-filter p a rows (In-perm a (env.order-perm A _) (In-head? a _ h)) in
      In-any p a rows m hit
