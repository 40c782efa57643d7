-- ===== src/History/Finality.antt =====
-- What becomes of a reservation: only its status changes, and that only until it is completed or
-- cancelled.
use ticket_booking.Base.{
  ℕ, ◌≤◌, ◌≡◌, refl, sym, ◌∙◌, ap, subst, inl, inr, ◌≢◌, true, false, List, [], ◌∷◌, map, In, ◌==◌,
  ==_iff, if◌then◌else◌, arith, Bool-cases,
}
use ticket_booking.Models.{Reservation, ReservationStatus, held, completed, Tables}
use ticket_booking.Env.{Env}
use ticket_booking.Action.{World}
use ticket_booking.Reservations.Counting.{
  with_status, with_key, with_key-with_status, present, absent,
}
use ticket_booking.Requests.{Request, serve_all}
use ticket_booking.History.Moves.{IsOpen, Move, holds, ends, notes, pays, Reach, start, later}
use ticket_booking.History.Serving.{serve_all-Reach}

-- No two reservations have the same primary key.
abbrev pub HasKeys : Tables → Type 0
HasKeys t = (k : ℕ) → with_key k t.reservations ≤ 1

-- The reservation stands in the tables with some status, which is its own if it was not held.
abbrev pub Survives : Reservation → Tables → Type 0
Survives r t =
    (st : ReservationStatus) × In (record r { status = st }) t.reservations
    × (r.status ≢ held → st ≡ r.status)

-- With unique keys, a key tells the row.
pub same_row :
    (r r' : Reservation) (rs : List Reservation)
    → In r rs
    → In r' rs
    → r.reservation_id ≡ r'.reservation_id
    → with_key r.reservation_id rs ≤ 1
    → r ≡ r'
same_row r r' [] m m' e h = absurd m
same_row r r' (x ∷ rs) (inl i) (inl i') e h = sym i ∙ i'
same_row r r' (x ∷ rs) (inl i) (inr m') e h =
    absurd
      (ground (arith, ap (λ y. y.reservation_id) i, present r' rs m', ap (λ k. with_key k rs) e))
same_row r r' (x ∷ rs) (inr m) (inl i') e h =
    absurd (ground (arith, ap (λ y. y.reservation_id) i', present r rs m))
same_row r r' (x ∷ rs) (inr m) (inr m') e h = same_row r r' rs m m' e (ground arith)

pub In-map : {A B : Type 0} (f : A → B) (a : A) (xs : List A) → In a xs → In (f a) (map f xs)
In-map f a [] m = absurd m
In-map f a (x ∷ xs) (inl e) = inl (ap f e)
In-map f a (x ∷ xs) (inr m) = inr (In-map f a xs m)

module _ (env : Env) where
  Survives-ended :
      (rst : ReservationStatus) (ids : List ℕ) (r r' : Reservation) (t : Tables)
      → HasKeys t
      → IsOpen env r' ids t
      → Survives r t
      → (st : ReservationStatus) × In
          (record r { status = st })
          (map (with_status rst r'.reservation_id) t.reservations)
        × (r.status ≢ held → st ≡ r.status)
  Survives-ended rst ids r r' t u o (st, m, fin) =
      elim (Bool-cases (r.reservation_id == r'.reservation_id)) [
        | inl e ↦ (
          rst,
          subst (λ z. In z rows) (changed e) moved,
          λ live. absurd (live (sym (fin live) ∙ ap (λ y. y.status) (same e) ∙ o.is_held)),
        )
        | inr e ↦ (st, subst (λ z. In z rows) (kept e) moved, fin)
      ]
    where
      rows : List Reservation
      rows = map (with_status rst r'.reservation_id) t.reservations

      a : Reservation
      a = record r { status = st }

      moved :
          In
            (with_status rst r'.reservation_id a)
            (map (with_status rst r'.reservation_id) t.reservations)
      moved = In-map (with_status rst r'.reservation_id) a t.reservations m

      same : (r.reservation_id == r'.reservation_id) ≡ true → a ≡ r'
      same e = same_row a r' t.reservations m o.stored ((==_iff _ _).0 e) (u r.reservation_id)

      changed :
          (r.reservation_id == r'.reservation_id) ≡ true
          → with_status rst r'.reservation_id a ≡ record r { status = rst }
      changed e = ap (λ b. if b then record a { status = rst } else a) e

      kept :
          (r.reservation_id == r'.reservation_id) ≡ false → with_status rst r'.reservation_id a ≡ a
      kept e = ap (λ b. if b then record a { status = rst } else a) e

  Survives-Move :
      (r : Reservation) {t t' : Tables} → HasKeys t → Move env t t' → Survives r t → Survives r t'
  Survives-Move r {t} u (holds chosen r' n f p e) (st, m, fin) =
      subst (Survives r) (sym e) (st, inr m, fin)
  Survives-Move r {t} u (ends st rst ids r' w o e) v =
      subst (Survives r) (sym e) (Survives-ended rst ids r r' t u o v)
  Survives-Move r {t} u (notes p h e) v = subst (Survives r) (sym e) v
  Survives-Move r {t} u (pays p ids r' o k c e) v =
      subst (Survives r) (sym e) (Survives-ended completed ids r r' t u o v)

  pub Move-HasKeys : {t t' : Tables} → Move env t t' → HasKeys t → HasKeys t'
  Move-HasKeys {t} (holds chosen r n f p e) u = subst HasKeys (sym e) λ k. ground (
    arith,
    u k,
    absent r.reservation_id t.reservations n.fresh,
    ap (λ j. with_key j t.reservations),
  )
  Move-HasKeys {t} (ends st rst ids r w o e) u =
      subst HasKeys (sym e)
        λ k. rw (with_key-with_status k r.reservation_id rst t.reservations) (u k)
  Move-HasKeys {t} (notes p h e) u = subst HasKeys (sym e) u
  Move-HasKeys {t} (pays p ids r o k c e) u =
      subst HasKeys (sym e)
        λ k. rw (with_key-with_status k r.reservation_id completed t.reservations) (u k)

  Reach-Survives :
      (r : Reservation) {t t' : Tables}
      → HasKeys t
      → Reach env t t'
      → Survives r t
      → Survives r t' × HasKeys t'
  Reach-Survives r u start v = (v, u)
  Reach-Survives r u (later a m) v =
      let (v', u') = Reach-Survives r u a v in (Survives-Move r u' m v', Move-HasKeys m u')

  -- From committed tables in which no two reservations share a key, no history of requests,
  -- each run as one step, removes a reservation or changes anything in it but its status, and
  -- the status of one that is completed or cancelled stays.
  pub serve_all-Survives :
      (r : Reservation) (requests : List Request) (w : World env)
      → HasKeys w.session.committed
      → In r w.session.committed.reservations
      → Survives r (serve_all env requests w).session.committed
  serve_all-Survives r requests w u m =
      (Reach-Survives r u (serve_all-Reach env requests w) (r.status, m, λ live. refl)).0
