-- ===== src/Catalogue/Paging.antt =====
-- The pages of the event list.
use ticket_booking.Base.{
  ℕ, zero, suc, ◌+◌, ◌-◌, ◌*◌, ◌≤◌, ◌≡◌, refl, sym, ◌∙◌, ap, subst, inl, inr, true, List, [], ◌∷◌,
  ◌++◌, map, In, length, length-perm, filter, leb, take, drop, take-add, take_all, pages, sort,
  insert, All, sort-perm, sort-Perm, Orders, arith, Bool-cases,
}
use mathlib.Core.List.{Permᴰ}
use mathlib.Core.List.Permᴰ as Perm
use ticket_booking.Models.{Event, Tables}
use ticket_booking.Env.{Env}
use ticket_booking.Repositories.Reads.{select}
use ticket_booking.Catalogue.{EventResponse, to_event_response, newest_first, get_all, get_events}

filter_all : (rows : List Event) → filter (λ e. true) rows ≡ rows
filter_all [] = refl
filter_all (e ∷ rows) = ap (λ es. e ∷ es) (filter_all rows)

-- No two of the events start at the same time.
abbrev pub StartApart : List Event → Type 0
StartApart rows = (a b : Event) → In a rows → In b rows → a.start_at ≡ b.start_at → a ≡ b

newest_first-Orders : (rows : List Event) → StartApart rows → Orders newest_first rows
newest_first-Orders rows h = record {
  total = λ a b. elim (Bool-cases (leb b.start_at a.start_at)) [
    | inl e ↦ inl e
    | inr e ↦ inr (ground (arith, e))
  ];
  trans = λ a b c p q. ground (arith, p, q);
  antisym = λ a b m m' p q. h a b m m' (ground (arith, p, q));
}

-- The list as it is for every engine.
abbrev pub newest : Tables → List Event
newest t = sort newest_first t.events

-- Each event starts at or after the ones that follow it.
abbrev pub IsNewestFirst : List Event → Type 0
IsNewestFirst [] = 0 ≤ 0
IsNewestFirst (e ∷ es) = All (λ x. x.start_at ≤ e.start_at) es × IsNewestFirst es

below :
    (m n : ℕ) (es : List Event)
    → m ≤ n
    → All (λ x. x.start_at ≤ m) es
    → All (λ x. x.start_at ≤ n) es
below m n [] h a = a
below m n (e ∷ es) h a = (omega (arith, h, a.0), below m n es h a.1)

insert-All :
    (n : ℕ) (e : Event) (es : List Event)
    → e.start_at ≤ n
    → All (λ x. x.start_at ≤ n) es
    → All (λ x. x.start_at ≤ n) (insert newest_first e es)
insert-All n e [] h a = (h, a)
insert-All n e (x ∷ es) h a = elim (Bool-cases (leb x.start_at e.start_at)) [
  | inl f ↦ rw f (h, a)
  | inr f ↦ rw f (a.0, insert-All n e es h a.1)
]

insert-IsNewestFirst :
    (e : Event) (es : List Event) → IsNewestFirst es → IsNewestFirst (insert newest_first e es)
insert-IsNewestFirst e [] a = (tt, omega arith)
insert-IsNewestFirst e (x ∷ es) a = elim (Bool-cases (leb x.start_at e.start_at)) [
  | inl f ↦
      let before : x.start_at ≤ e.start_at = ground (arith, f) in
      rw f ((before, below x.start_at e.start_at es before a.0), a)
  | inr f ↦
      let after : e.start_at ≤ x.start_at = ground (arith, f) in
      rw f (insert-All x.start_at e es after a.0, insert-IsNewestFirst e es a.1)
]

newest-IsNewestFirst : (es : List Event) → IsNewestFirst (sort newest_first es)
newest-IsNewestFirst [] = omega arith
newest-IsNewestFirst (e ∷ es) = insert-IsNewestFirst e _ (newest-IsNewestFirst es)

module _ (env : Env) where
  rows-eq-newest :
      (t : Tables)
      → StartApart t.events
      → sort newest_first (select env (λ e. true) t.events) ≡ newest t
  rows-eq-newest t h = sym (
      sort-perm newest_first {ys = select env (λ e. true) t.events}
        (Perm.symm (
          subst (λ rows. Permᴰ (select env (λ e. true) t.events) rows) (filter_all t.events)
            (env.order-perm Event _)))
        (newest_first-Orders t.events h))

map-append : {A B : Type 0} (f : A → B) (xs ys : List A) → map f (xs ++ ys) ≡ map f xs ++ map f ys
map-append f [] ys = refl
map-append f (x ∷ xs) ys = ap (λ zs. f x ∷ zs) (map-append f xs ys)

module _ (engine : ℕ → Env) (limit : ℕ) (t : Tables) where
  -- What the pages 1 to n show, each in the order that the engine gives its rows at that time.
  abbrev pub shown : ℕ → List EventResponse
  shown n = pages (λ page. (get_events (engine page) page limit t).items) n

  page-eq :
      (n : ℕ)
      → StartApart t.events
      → (get_events (engine (suc n)) (suc n) limit t).items
        ≡ map to_event_response (take limit (drop (n * limit) (newest t)))
  unfolding get_events get_all
  page-eq n h =
      ap (λ rows. map to_event_response (take limit (drop ((suc n - 1) * limit) rows)))
        (rows-eq-newest (engine (suc n)) t h)
      ∙ ap (λ k. map to_event_response (take limit (drop (k * limit) (newest t)))) {y = n}
          (omega arith)

  shown-eq-take :
      (n : ℕ) → StartApart t.events → shown n ≡ map to_event_response (take (n * limit) (newest t))
  shown-eq-take zero h = ap (λ k. map to_event_response (take k (newest t))) {x = 0} (omega arith)
  shown-eq-take (suc n) h =
      ap (λ es. es ++ (get_events (engine (suc n)) (suc n) limit t).items) (shown-eq-take n h)
      ∙ ap (λ es. map to_event_response (take (n * limit) (newest t)) ++ es) (page-eq n h)
      ∙ sym (map-append to_event_response (take (n * limit) (newest t)) _)
      ∙ ap (map to_event_response) (sym (take-add (n * limit) limit (newest t)))
      ∙ ap (λ k. map to_event_response (take k (newest t))) {x = n * limit + limit} (omega arith)

  -- Where no two events start at the same time and the pages hold as many items as there are
  -- events, the pages put together show every event once, each starting at or after the ones
  -- that follow it, and each page gives their number as the total, also if the SQL engine
  -- orders the rows differently for each page.
  pub get_events_pages :
      (n : ℕ)
      → StartApart t.events
      → length t.events ≤ n * limit
      → ((rows : List Event) × (shown n ≡ map to_event_response rows)
          × Permᴰ rows t.events
          × IsNewestFirst rows)
        × ((page : ℕ) → (get_events (engine page) page limit t).total ≡ length t.events)
  unfolding get_events get_all
  get_events_pages n h enough = (
    (
      newest t,
      shown-eq-take n h
          ∙ ap (map to_event_response) (
              take_all (n * limit) (newest t)
                (omega (arith, enough, length-perm (sort-Perm newest_first t.events)))),
      sort-Perm newest_first t.events,
      newest-IsNewestFirst t.events,
    ),
    λ page.
        length-perm (sort-Perm newest_first (select (engine page) (λ e. true) t.events))
        ∙ length-perm ((engine page).order-perm Event _)
        ∙ ap length (filter_all t.events),
  )
