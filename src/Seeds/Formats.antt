-- ===== src/Seeds/Formats.antt =====
-- The numbers in the texts of seed.py: `{i}`, `{i:04d}` and `{i:012x}`.
use ticket_booking.Base.{
  ℕ, zero, suc, ◌+◌, ◌-◌, ◌*◌, ◌/◌, ◌%◌, ◌≤◌, ◌<◌, ◌≡◌, refl, ◌∙◌, [], ◌∷◌, ◌++◌, Text, ltb, length,
  foldl, if◌then◌else◌, arith, Bool-cases, inl, inr,
}

-- The character of a digit: 0 to 9, then a to f.
unfoldable pub digit : ℕ → ℕ
digit d = if ltb d 10 then 48 + d else 87 + d

-- The digits of a number in a base; a number has at most as many digits as its value, and one more.
unfoldable pub digits : ℕ → ℕ → ℕ → Text
digits base zero n = digit n ∷ []
digits base (suc fuel) n =
    let rest = digits base fuel (n / base) in
    if ltb n base then digit n ∷ [] else rest ++ (digit (n % base) ∷ [])

unfoldable pub decimal : ℕ → Text
decimal n = digits 10 n n

unfoldable pub hexadecimal : ℕ → Text
hexadecimal n = digits 16 n n

zeros : ℕ → Text
zeros zero = []
zeros (suc n) = 48 ∷ zeros n

-- Zeros on the left, up to a width.
unfoldable pub zero_fill : ℕ → Text → Text
unfolding zeros
zero_fill width s = zeros (width - length s) ++ s

-- The number that decimal digits stand for.
abbrev pub value : Text → ℕ
value s = foldl (λ n c. n * 10 + (c - 48)) 0 s

foldl-append : (f : ℕ → ℕ → ℕ) (n c : ℕ) (s : Text) → foldl f n (s ++ (c ∷ [])) ≡ f (foldl f n s) c
foldl-append f n c [] = refl
foldl-append f n c (d ∷ s) = foldl-append f (f n d) c s

digit-small : (d : ℕ) → d < 10 → digit d ≡ 48 + d
unfolding digit
digit-small d h = ground (arith, h)

smaller : (fuel n : ℕ) → n ≤ suc fuel → n / 10 ≤ fuel
smaller fuel n h = omega (arith, h)

digits-value : (fuel n : ℕ) → n ≤ fuel → value (digits 10 fuel n) ≡ n
unfolding digits digit
digits-value zero n h = ground (arith, h)
digits-value (suc fuel) n h = elim (Bool-cases (ltb n 10)) [
  | inl e ↦ rw e (omega arith)
  | inr e ↦ rw e (
      foldl-append (λ m c. m * 10 + (c - 48)) 0 (digit (n % 10)) (digits 10 fuel (n / 10))
      ∙ omega (
        arith,
        digits-value fuel (n / 10) (smaller fuel n h),
        digit-small (n % 10) (omega arith),
      ))
]

-- The fuel of `decimal` is enough: the digits stand for the number.
pub value-decimal : (n : ℕ) → value (decimal n) ≡ n
unfolding decimal
value-decimal n = digits-value n n (omega arith)

zeros-value : (n : ℕ) (s : Text) → value (zeros n ++ s) ≡ value s
unfolding zeros
zeros-value zero s = refl
zeros-value (suc n) s = zeros-value n s

pub value-zero_fill : (width : ℕ) (s : Text) → value (zero_fill width s) ≡ value s
unfolding zero_fill
value-zero_fill width s = zeros-value (width - length s) s
