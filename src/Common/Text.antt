-- ===== src/Common/Text.antt =====
-- C strings as lists of bytes, without the closing NUL; `strcmp` and `atoi` of the C library.
pub mod Decimal
pub mod Search
use Prim.Native.Nat.{ℕ, zero, suc, ◌/◌, ◌%◌, ◌+◌, ◌-◌, ◌*◌}
use Prim.Native.Char.{code}
use Prim.Native.String.{String}
use mathlib.Core.Path.{◌≡◌, refl}
use mathlib.Core.Logic.{◌↔◌}
use mathlib.Core.Bool.{Bool, true, false, ◌&&◌, ◌||◌}
use mathlib.Core.List.{List, [], ◌∷◌, ◌++◌}
use native.Mathlib.Omega.{arith}
use store_monitor.Common.Int.{ℤ, pos, negsuc, negate}
use store_monitor.Common.Tests.{leb, ◌==◌, if◌then◌else◌}

abbrev pub Str : Type 0
Str = List ℕ

abbrev pub codes : String → Str
codes String.[] = []
codes (String.◌∷◌ c s) = code c ∷ codes s

-- `strcmp(a, b) == 0`.
unfoldable pub str_eq : Str → Str → Bool
str_eq [] [] = true
str_eq [] (y ∷ ys) = false
str_eq (x ∷ xs) [] = false
str_eq (x ∷ xs) (y ∷ ys) = (x == y) && str_eq xs ys

pub str_eq_refl : (a : Str) → str_eq a a ≡ true
unfolding str_eq
str_eq_refl [] = refl
str_eq_refl (x ∷ xs) = ground (arith, str_eq_refl xs)

pub str_eq→eq : (a b : Str) → str_eq a b ≡ true → a ≡ b
unfolding str_eq
str_eq→eq [] [] h = refl
str_eq→eq [] (y ∷ ys) h = cc
str_eq→eq (x ∷ xs) [] h = cc
str_eq→eq (x ∷ xs) (y ∷ ys) h = ground (arith, str_eq→eq xs ys)

pub str_eq_iff : (a b : Str) → (str_eq a b ≡ true) ↔ (a ≡ b)
str_eq_iff a b = (str_eq→eq a b, λ e. rw e (str_eq_refl b))

-- `isspace`.
unfoldable pub is_space : ℕ → Bool
is_space c = (c == 32) || (leb 9 c && leb c 13)

unfoldable pub is_digit : ℕ → Bool
is_digit c = leb b'0' c && leb c b'9'

digits_from : ℕ → Str → ℕ
digits_from acc [] = acc
digits_from acc (c ∷ cs) =
    let rest = digits_from (acc * 10 + (c - b'0')) cs in if is_digit c then rest else acc

skip_spaces : Str → Str
skip_spaces [] = []
skip_spaces (c ∷ cs) = if is_space c then skip_spaces cs else c ∷ cs

-- The sign, then the digits up to the first other byte; no digit at all gives 0.
signed_digits : Str → ℤ
unfolding digits_from is_digit
signed_digits [] = pos 0
signed_digits (c ∷ cs) =
    if c == b'-'
    then negate (digits_from 0 cs)
    else pos (if c == b'+' then digits_from 0 cs else digits_from 0 (c ∷ cs))

-- `atoi`, exact also where the value does not fit an `int`.
unfoldable pub atoi : Str → ℤ
unfolding is_space digits_from skip_spaces signed_digits
atoi s = signed_digits (skip_spaces s)

digits_from-stop :
    (acc c : ℕ) (s rest : Str)
    → is_digit c ≡ false
    → digits_from acc (s ++ c ∷ rest) ≡ digits_from acc s
unfolding digits_from
digits_from-stop acc c [] rest e = rw e refl
digits_from-stop acc c (x ∷ s) rest e =
    rw (digits_from-stop (acc * 10 + (x - b'0')) c s rest e) refl

-- A text that starts with no space is read up to the space behind it.
pub atoi-stop :
    (x : ℕ) (s rest : Str) → is_space x ≡ false → atoi (x ∷ s ++ b' ' ∷ rest) ≡ atoi (x ∷ s)
unfolding atoi skip_spaces signed_digits
atoi-stop x s rest e =
    let d : is_digit b' ' ≡ false = unfold is_digit in refl in
    rw (e, digits_from-stop 0 b' ' s rest d, digits_from-stop 0 b' ' (x ∷ s) rest d) refl

-- `%u` of printf, for a number with at most `fuel` digits.
decimal_digits : ℕ → ℕ → Str → Str
decimal_digits zero n acc = acc
decimal_digits (suc fuel) n acc =
    let rest = decimal_digits fuel (n / 10) ((n % 10 + b'0') ∷ acc) in
    if leb n 9 then (n + b'0') ∷ acc else rest

-- An `unsigned short` or an `int` has at most ten digits.
unfoldable pub decimal : ℕ → Str
unfolding decimal_digits
decimal n = decimal_digits 10 n []

-- `%d` of printf.
unfoldable pub signed_decimal : ℤ → Str
signed_decimal (pos n) = decimal n
signed_decimal (negsuc n) = b'-' ∷ decimal (suc n)

-- The texts with one byte between any two.
unfoldable pub join : ℕ → List Str → Str
join c [] = []
join c (s ∷ []) = s
join c (s ∷ t ∷ ss) = s ++ c ∷ join c (t ∷ ss)
