-- ===== src/History/Charges.antt =====
-- No reservation is paid for twice.
use ticket_booking.Base.{
  ℕ, ◌+◌, ◌≤◌, ◌≡◌, refl, sym, ap, subst, ◌≢◌, Bool, true, false, List, [], ◌∷◌, map, count, ◌&&◌,
  ◌==◌, if◌then◌else◌, arith,
}
use ticket_booking.Models.{
  Reservation, ReservationStatus, completed, Payment, PaymentStatus, Tables,
}
use ticket_booking.Env.{Env}
use ticket_booking.Action.{World}
use ticket_booking.Reservations.Counting.{with_status, with_key, tally-with_status}
use ticket_booking.Requests.{Request, serve_all}
use ticket_booking.History.Moves.{IsOpen, Move, holds, ends, notes, pays, Reach, start, later}
use ticket_booking.History.Finality.{HasKeys, Move-HasKeys}
use ticket_booking.History.Serving.{serve_all-Reach}

abbrev pub is_complete : ReservationStatus → Bool
is_complete completed = true
is_complete _ = false

abbrev pub is_made : PaymentStatus → Bool
is_made completed = true
is_made _ = false

-- The completed payments for a reservation, and the completed reservations with a key.
abbrev pub charges : ℕ → Tables → ℕ
charges k t = count (λ p. is_made p.status && (p.reservation_id == k)) t.payments

abbrev pub completions : ℕ → Tables → ℕ
completions k t = count (λ r. is_complete r.status && (r.reservation_id == k)) t.reservations

abbrev pub IsCharged : Tables → Type 0
IsCharged t = (k : ℕ) → charges k t ≤ completions k t

not-made : (p : Payment) → p.status ≢ completed → is_made p.status ≡ false
not-made p h = ground arith

completions-absent :
    (k : ℕ) (rs : List Reservation)
    → count (λ r. is_complete r.status && (r.reservation_id == k)) rs ≤ with_key k rs
completions-absent k [] = omega arith
completions-absent k (r ∷ rs) = ground (arith, completions-absent k rs)

module _ (env : Env) where
  -- The end of a held reservation takes away no completion, and adds its own.
  completions-ended :
      (k : ℕ) (rst : ReservationStatus) (ids : List ℕ) (r : Reservation) (t : Tables)
      → HasKeys t
      → IsOpen env r ids t
      → count
          (λ x. is_complete x.status && (x.reservation_id == k))
          (map (with_status rst r.reservation_id) t.reservations)
        ≡ completions k t + (if is_complete rst && (r.reservation_id == k) then 1 else 0)
  completions-ended k rst ids r t u o = ground (
    arith,
    tally-with_status is_complete (λ x. x.reservation_id == k) (λ st x. refl) rst r t.reservations
        o.stored (u r.reservation_id),
    o.is_held,
  )

  Move-IsCharged : {t t' : Tables} → HasKeys t → Move env t t' → IsCharged t → IsCharged t'
  Move-IsCharged {t} u (holds chosen r n f p e) c = subst IsCharged (sym e) λ k. ground (arith, c k)
  Move-IsCharged {t} u (ends st rst ids r w o e) c =
      subst IsCharged (sym e) λ k. omega (arith, c k, completions-ended k rst ids r t u o)
  Move-IsCharged {t} u (notes p h e) c =
      subst IsCharged (sym e) λ k. ground (arith, c k, not-made p h)
  Move-IsCharged {t} u (pays p ids r o same paid e) c =
      subst IsCharged (sym e)
        λ k. ground (arith, c k, completions-ended k completed ids r t u o, ap (λ j. j == k) same)

  Reach-IsCharged :
      {t t' : Tables} → HasKeys t → IsCharged t → Reach env t t' → HasKeys t' × IsCharged t'
  Reach-IsCharged u c start = (u, c)
  Reach-IsCharged u c (later a m) =
      let (u', c') = Reach-IsCharged u c a in (Move-HasKeys env m u', Move-IsCharged u' m c')

  -- From committed tables in which no two reservations share a key and no reservation has
  -- more completed payments than there are completed reservations of its key, any history of
  -- requests, each run as one step, leaves at most one completed payment for a reservation,
  -- and none for one that is not completed.
  pub serve_all-IsCharged :
      (requests : List Request) (w : World env)
      → HasKeys w.session.committed
      → IsCharged w.session.committed
      → (k : ℕ)
      → let t = (serve_all env requests w).session.committed in
        (charges k t ≤ completions k t) × (charges k t ≤ 1)
  serve_all-IsCharged requests w u c k =
      let (u', c') = Reach-IsCharged u c (serve_all-Reach env requests w) in
      (
        c' k,
        omega (
          arith,
          c' k,
          u' k,
          completions-absent k (serve_all env requests w).session.committed.reservations,
        ),
      )
