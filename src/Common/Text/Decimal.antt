-- ===== src/Common/Text/Decimal.antt =====
-- Decimal numbers: how long they are, and that `atoi` reads them back.
use Prim.Native.Nat.{ℕ, zero, suc, ◌/◌, ◌%◌, ◌+◌, ◌-◌, ◌*◌, ◌^◌, ◌≤◌, ◌<◌}
use native.Mathlib.Nat.{pow-succ'}
use mathlib.Core.Path.{◌≡◌, refl, ap, ◌∙◌}
use mathlib.Core.Logic.{inl, inr}
use mathlib.Core.Bool.{true, false}
use mathlib.Core.List.{[], ◌∷◌}
use native.Mathlib.Omega.{arith}
use store_monitor.Common.Int.{pos}
use store_monitor.Common.Lists.{length, All}
use store_monitor.Common.Tests.{leb, Bool-cases}
use store_monitor.Common.Text.{
  Str, is_space, is_digit, digits_from, skip_spaces, signed_digits, atoi, decimal_digits, decimal,
}

digits_longer : (fuel n : ℕ) (acc : Str) → length acc ≤ length (decimal_digits fuel n acc)
unfolding decimal_digits
digits_longer zero n acc = omega arith
digits_longer (suc fuel) n acc = elim (Bool-cases (leb n 9)) [
  | inl small ↦ rw small (omega arith)
  | inr large ↦ rw large (omega (arith, digits_longer fuel (n / 10) ((n % 10 + b'0') ∷ acc)))
]

digits_some : (fuel n : ℕ) (acc : Str) → length acc < length (decimal_digits (suc fuel) n acc)
unfolding decimal_digits
digits_some fuel n acc = elim (Bool-cases (leb n 9)) [
  | inl small ↦ rw small (omega arith)
  | inr large ↦ rw large (omega (arith, digits_longer fuel (n / 10) ((n % 10 + b'0') ∷ acc)))
]

pow_pos : (k : ℕ) → 0 < 10 ^ k
pow_pos zero = omega arith
pow_pos (suc k) = omega (arith, pow-succ' 10 k, pow_pos k)

-- At most `k + 1` digits.
digits_short :
    (fuel n k : ℕ) (acc : Str)
    → n < 10 ^ suc k
    → length (decimal_digits fuel n acc) ≤ suc k + length acc
unfolding decimal_digits
digits_short zero n k acc h = omega arith
digits_short (suc fuel) n zero acc h =
    let small : leb n 9 ≡ true = ground arith in rw small (omega arith)
digits_short (suc fuel) n (suc k) acc h = elim (Bool-cases (leb n 9)) [
  | inl small ↦ rw small (omega arith)
  | inr large ↦ rw large (
      omega (
        arith,
        digits_short fuel (n / 10) k ((n % 10 + b'0') ∷ acc) (omega (arith, pow-succ' 10 (suc k))),
      ))
]

-- At least `k + 1` digits.
digits_long :
    (fuel n k : ℕ) (acc : Str)
    → 10 ^ k ≤ n
    → k < fuel
    → suc k + length acc ≤ length (decimal_digits fuel n acc)
unfolding decimal_digits
digits_long zero n k acc h f = absurd (omega arith)
digits_long (suc fuel) n zero acc h f = omega (arith, digits_some fuel n acc)
digits_long (suc fuel) n (suc k) acc h f =
    let large : leb n 9 ≡ false = ground (arith, pow-succ' 10 k, pow_pos k) in
    rw large (
      omega (
        arith,
        digits_long fuel (n / 10) k ((n % 10 + b'0') ∷ acc) (omega (arith, pow-succ' 10 k))
            (omega arith),
      ))

pub decimal-short : (n k : ℕ) → n < 10 ^ suc k → length (decimal n) ≤ suc k
unfolding decimal
decimal-short n k h = omega (arith, digits_short 10 n k [] h)

pub decimal-long : (n k : ℕ) → 10 ^ k ≤ n → k < 10 → k < length (decimal n)
unfolding decimal
decimal-long n k h f = omega (arith, digits_long 10 n k [] h f)

-- The digits of a number in front of others.
digits_from-decimal :
    (fuel n : ℕ) (acc : Str)
    → n < 10 ^ fuel
    → digits_from 0 (decimal_digits fuel n acc) ≡ digits_from n acc
unfolding decimal_digits digits_from is_digit
digits_from-decimal zero n acc h = let e : n ≡ 0 = omega arith in rw e refl
digits_from-decimal (suc fuel) n acc h = elim (Bool-cases (leb n 9)) [
  | inl small ↦ rw small (ground arith)
  | inr large ↦ rw large (
      digits_from-decimal fuel (n / 10) ((n % 10 + b'0') ∷ acc) (omega (arith, pow-succ' 10 fuel))
      ∙ digit (n / 10) (n % 10) acc (omega arith)
      ∙ ap (λ m. digits_from m acc) (omega arith))
]
  where
    digit :
        (m d : ℕ) (acc : Str)
        → d < 10
        → digits_from m ((d + b'0') ∷ acc) ≡ digits_from (m * 10 + d) acc
    digit m d acc h =
        let e : is_digit (d + b'0') ≡ true = ground arith in
        let f : d + b'0' - b'0' ≡ d = omega arith in rw (f, e) refl

abbrev Digits : Str → Type 0
Digits = All (λ c. is_digit c ≡ true)

Digits-Digits : (fuel n : ℕ) (acc : Str) → Digits acc → Digits (decimal_digits fuel n acc)
unfolding decimal_digits is_digit
Digits-Digits zero n acc v = v
Digits-Digits (suc fuel) n acc v = elim (Bool-cases (leb n 9)) [
  | inl small ↦ rw small (ground arith, v)
  | inr large ↦ rw large (Digits-Digits fuel (n / 10) ((n % 10 + b'0') ∷ acc) (ground arith, v))
]

-- A text of digits is read as they stand.
atoi-Digits : (s : Str) → Digits s → 0 < length s → atoi s ≡ pos (digits_from 0 s)
unfolding atoi skip_spaces signed_digits is_space is_digit
atoi-Digits [] v h = absurd (omega arith)
atoi-Digits (c ∷ s) v h = ground (arith, v.0)

-- `atoi` reads what `%u` printed.
pub atoi-decimal : (n : ℕ) → n < 10 ^ 10 → atoi (decimal n) ≡ pos n
unfolding decimal digits_from
atoi-decimal n h =
    atoi-Digits (decimal_digits 10 n []) (Digits-Digits 10 n [] tt) (digits_some 9 n [])
    ∙ ap pos (digits_from-decimal 10 n [] h)

pub decimal-digits : (n : ℕ) → All (λ c. is_digit c ≡ true) (decimal n)
unfolding decimal
decimal-digits n = Digits-Digits 10 n [] tt
