-- ===== src/Tests/Devices.antt =====
-- What the components take from outside, as simple machines.
use ticket_booking.Base.{
  ℕ, zero, suc, ◌*◌, ◌/◌, ◌≡◌, refl, true, false, Option, none, some, List, [], ◌∷◌, ◌++◌, Text,
  length, leb, ltb, if◌then◌else◌, arith,
}
use ticket_booking.Exceptions.{ok}
use ticket_booking.Env.{Env}
use ticket_booking.Tokens.{Payload, Jwt}
use ticket_booking.Queue.{SortedSets, index_of, without, insert_at}
use ticket_booking.Limits.{Counting}
use ticket_booking.Scaling.Calculator.{Floats, whole}
use ticket_booking.Scaling.Plans.{Forecasting}
use ticket_booking.Scaling.Prescale.{Autoscaler}
use ticket_booking.Scaling.Scaler.{Cluster}
use ticket_booking.Tests.Local.{Machine, local_env}

abbrev added : Text → List Text → Option ℕ → List Text
added u xs none = insert_at (length xs) u xs
added u xs (some _) = xs

abbrev pub sorted_sets : SortedSets local_env
sorted_sets = record {
  members = λ k m. m.queue;
  zrank = λ k u m. index_of u m.queue;
  zcard = λ k m. length m.queue;
  zadd = λ k u score m. record m { queue = added u m.queue (index_of u m.queue) };
  expire = λ k ttl m. m;
  zrem = λ k u m. (1, record m { queue = without u m.queue });
  zrank_lem = λ k u m. refl;
  zcard_lem = λ k m. refl;
  zadd_lem = λ k u score m h. (length m.queue, rw h refl);
  expire_lem = λ k ttl m. refl;
  zrem_lem = λ k u m. refl;
  is_disconnected = λ m. (false, m);
}

abbrev pub put : Text → Text → Text
put t s = length t ∷ (t ++ s)

abbrev put_type : Option Text → Text → Text
put_type none s = 0 ∷ s
put_type (some t) s = 1 ∷ put t s

abbrev put_position : Option ℕ → Text → Text
put_position none s = 0 ∷ s
put_position (some n) s = 1 ∷ n ∷ s

abbrev write_token : Payload → Text
write_token p =
    put p.sub (put p.event_id (put_type p.token_type (put_position p.position (p.exp ∷ []))))

abbrev pub split : ℕ → Text → Text × Text
split zero s = ([], s)
split (suc n) [] = ([], [])
split (suc n) (c ∷ s) = let (a, b) = split n s in (c ∷ a, b)

pub split-append : (t s : Text) → split (length t) (t ++ s) ≡ (t, s)
split-append [] s = refl
split-append (c ∷ t) s = rw (split-append t s) refl

abbrev pub take_text : Text → Text × Text
take_text [] = ([], [])
take_text (n ∷ s) = split n s

abbrev take_type : Text → Option Text × Text
take_type [] = (none, [])
take_type (zero ∷ s) = (none, s)
take_type (suc _ ∷ s) = let (t, rest) = take_text s in (some t, rest)

abbrev finish_token : ℕ → Text → Text → Option Text → Text → Option Payload
finish_token now sub event_id kind (zero ∷ exp ∷ []) =
    if leb now exp
    then some
        (record { sub = sub; event_id = event_id; position = none; token_type = kind; exp = exp })
    else none
finish_token now sub event_id kind (suc _ ∷ n ∷ exp ∷ []) =
    if leb now exp
    then some
        (record { sub = sub; event_id = event_id; position = some n; token_type = kind; exp = exp })
    else none
finish_token now sub event_id kind _ = none

abbrev read_token : ℕ → Text → Option Payload
read_token now s =
    let (sub, s1) = take_text s in
    let (event_id, s2) = take_text s1 in
    let (kind, s3) = take_type s2 in finish_token now sub event_id kind s3

take_type_lem : (t : Option Text) (s : Text) → take_type (put_type t s) ≡ (t, s)
take_type_lem none s = refl
take_type_lem (some t) s = rw (split-append t s) refl

finish_token_lem :
    (now : ℕ) (sub event_id : Text) (kind : Option Text) (position : Option ℕ) (exp : ℕ)
    → leb now exp ≡ true
    → finish_token now sub event_id kind (put_position position (exp ∷ []))
      ≡ some (record {
        sub = sub;
        event_id = event_id;
        position = position;
        token_type = kind;
        exp = exp;
      })
finish_token_lem now sub event_id kind none exp h = rw h refl
finish_token_lem now sub event_id kind (some n) exp h = rw h refl

pub read-write_token :
    (now : ℕ) (p : Payload) → leb now p.exp ≡ true → read_token now (write_token p) ≡ some p
read-write_token now p h =
    let tail = put_position p.position (p.exp ∷ []) in
    rw
      (
        split-append p.sub (put p.event_id (put_type p.token_type tail)),
        split-append p.event_id (put_type p.token_type tail),
        take_type_lem p.token_type tail,
      )
      (finish_token_lem now p.sub p.event_id p.token_type p.position p.exp h)

abbrev pub plain_jwt : Jwt
plain_jwt = record {
  encode = write_token;
  decode = read_token;
  decode-encode = read-write_token;
  encode-cons = λ p. (_, _, refl);
  queue_token_expiration_hours = 1;
  jwt_expiration_hours = 24;
}

-- With a Redis that is always up.
abbrev pub steady_env : Env
steady_env = record local_env { reach = λ m. (true, m) }

abbrev pub counter : Counting steady_env
counter = record {
  value = λ k m. m.hits;
  incr = λ k m. (suc m.hits, record m { hits = suc m.hits });
  expire = λ k ttl m. m;
  incr_lem = λ k m. refl;
  incr-value = λ k m. refl;
  expire-value = λ k ttl m. refl;
  show = λ n. n ∷ [];
}

-- Whole numbers in place of floats; a safety factor of 2.
abbrev pub whole_floats : Floats
whole_floats = record {
  F = ℕ;
  times = λ a b. a * b;
  over = λ a n. a / n;
  ceil = λ a. whole a;
  greater = λ a b. ltb b a;
  zero_float = 0;
  one_float = 1;
  of_nat = λ n. n;
  round = λ a. some a;
  safety_factor = 2;
}

abbrev pub steady_forecast : Forecasting local_env whole_floats
steady_forecast = record {
  predict = λ event_id start scale samples m. (
    ok (
        record { timestamp = start; predicted_rps = 900; lower_bound = 800; upper_bound = 1000 }
        ∷ []),
    m,
  );
  dumps_plan = λ p. p.recommended_replicas ∷ p.peak_rps ∷ [];
  loads_plan = λ s. elim s [
    | [] ↦ none
    | n ∷ t ↦ elim t [
      | [] ↦ none
      | r ∷ _ ↦ some (record { recommended_replicas = n; peak_rps = r })
    ]
  ];
  loads-dumps_plan = λ p. refl;
  dumps_forecast = λ f. f.expected_users ∷ f.peak_time;
  loads_forecast =
      λ s. elim s [ [] ↦ none | n ∷ t ↦ some (record { expected_users = n; peak_time = t }) ];
  hours_minutes = λ t. t ∷ [];
}

abbrev pub autoscaler : Autoscaler local_env
autoscaler = record {
  hpa_min = λ m. m.pods;
  patch_hpa = λ n m. (true, record m { pods = n });
  patch_hpa_lem = λ n m h. refl;
}

pub some_pods : (m : Machine) (n : ℕ) → some m.pods ≡ some n → m.pods ≡ n
some_pods m n h = ground arith

abbrev pub cluster : Cluster local_env
cluster = record {
  replicas = λ m. m.pods;
  is_client = true;
  read_scale = λ m. (some m.pods, m);
  patch_scale = λ n m. (true, record m { pods = n });
  read_scale_lem = λ m n h. some_pods m n h;
  read_scale-same = λ m. refl;
  patch_scale_lem = λ n m. refl;
}
