-- ===== src/Prelude/Decimal.antt =====
-- The decimal text of a number, as `sprintf` prints it for `%ju`, and texts put together.
use Prim.Native.String.{String}
use Prim.Native.Nat.{ℕ, zero, suc, ◌+◌, ◌/◌, ◌%◌, ◌^◌, ◌≤◌, ◌<◌}
use mathlib.Core.Path.{◌≡◌, refl, ap}
use mathlib.Core.Logic.{inl, inr}
use mathlib.Core.Bool.{true, false}
use native.Mathlib.Omega.{arith}
use disco_c.Prelude.Text.{text_length}
use disco_c.Prelude.Tests.{ltb, ◌==◌, if◌then◌else◌, Bool-cases}

infixr 60 ◌&◌
unfoldable pub ◌&◌ : String → String → String
String.[] & t = t
String.◌∷◌ c s & t = String.◌∷◌ c (s & t)

-- The digit of a number below 10, before a text.
unfoldable pub digit_before : ℕ → String → String
unfolding ◌&◌
digit_before d t =
    if d == 0
    then "0" & t
    else if d == 1
    then "1" & t
    else if d == 2
    then "2" & t
    else if d == 3
    then "3" & t
    else if d == 4
    then "4" & t
    else if d == 5
    then "5" & t
    else if d == 6
    then "6" & t
    else if d == 7
    then "7" & t
    else if d == 8
    then "8" & t
    else "9" & t

-- The digits of a number before a text; so many at most.
unfoldable pub digits_before : ℕ → ℕ → String → String
unfolding digit_before
digits_before zero n t = t
digits_before (suc k) n t =
    let all = digits_before k (n / 10) (digit_before (n % 10) t) in
    if ltb n 10 then digit_before n t else all

-- A number below 2^64 has at most 20 digits.
unfoldable pub print_uint : ℕ → String
unfolding digits_before
print_uint n = digits_before 20 n ""

prints : (print_uint 0 ≡ "0") × (print_uint 18_446_744_073_709_551_615 ≡ "18446744073709551615")
unfolding print_uint
prints = (refl, refl)

pub &_empty : (s : String) → s & "" ≡ s
unfolding ◌&◌
&_empty String.[] = refl
&_empty (String.◌∷◌ c s) = ap (String.◌∷◌ c) (&_empty s)

pub length-& : (s t : String) → text_length (s & t) ≡ text_length s + text_length t
unfolding ◌&◌
length-& String.[] t = omega arith
length-& (String.◌∷◌ c s) t = omega (arith, length-& s t)

length-digit_before : (d : ℕ) (t : String) → text_length (digit_before d t) ≡ suc (text_length t)
unfolding digit_before
length-digit_before d t = ground arith

-- A number with so many digits at most.
abbrev pub HasAtMost : ℕ → ℕ → Type 0
HasAtMost zero n = ⊥
HasAtMost (suc zero) n = n < 10
HasAtMost (suc (suc k)) n = HasAtMost (suc k) (n / 10)

length-digits_before :
    (m k n : ℕ) (t : String) → HasAtMost k n → text_length (digits_before m n t) ≤ k + text_length t
unfolding digits_before
length-digits_before zero k n t d = omega arith
length-digits_before (suc m) zero n t d = absurd d
length-digits_before (suc m) (suc zero) n t d =
    let e : ltb n 10 ≡ true = ground (arith, d) in rw e (omega (arith, length-digit_before n t))
length-digits_before (suc m) (suc (suc k)) n t d = elim (Bool-cases (ltb n 10)) [
  | inl e ↦ rw e (omega (arith, length-digit_before n t))
  | inr e ↦ rw e (
      omega (
        arith,
        length-digit_before (n % 10) t,
        length-digits_before m (suc k) (n / 10) (digit_before (n % 10) t) d,
      ))
]

pub digits_20 : (n : ℕ) → n < 2 ^ 64 → HasAtMost 20 n
digits_20 n h = omega (arith, h)

digits_19 : (n : ℕ) → n < 10 ^ 19 → HasAtMost 19 n
digits_19 n h = omega (arith, h)

-- A number with exactly so many digits.
abbrev pub HasExactly : ℕ → ℕ → Type 0
HasExactly zero n = ⊥
HasExactly (suc zero) n = n < 10
HasExactly (suc (suc k)) n = (10 ≤ n) × HasExactly (suc k) (n / 10)

exact_length :
    (m k n : ℕ) (t : String)
    → k ≤ m
    → HasExactly k n
    → text_length (digits_before m n t) ≡ k + text_length t
unfolding digits_before
exact_length m zero n t h d = absurd d
exact_length zero (suc k) n t h d = absurd (omega (arith, h))
exact_length (suc m) (suc zero) n t h d =
    let e : ltb n 10 ≡ true = ground (arith, d) in rw e (omega (arith, length-digit_before n t))
exact_length (suc m) (suc (suc k)) n t h (b, d) =
    let e : ltb n 10 ≡ false = ground (arith, b) in
    rw e (
      omega (
        arith,
        length-digit_before (n % 10) t,
        exact_length m (suc k) (n / 10) (digit_before (n % 10) t) (omega (arith, h)) d,
      ))

exact_20 : (n : ℕ) → 10 ^ 19 ≤ n → n < 2 ^ 64 → HasExactly 20 n
exact_20 n l h = ground (arith, l, h)

-- The text of a 64-bit number has at most 20 characters.
pub length-print_uint : (n : ℕ) → n < 2 ^ 64 → text_length (print_uint n) ≤ 20
unfolding print_uint
length-print_uint n h = length-digits_before 20 20 n "" (digits_20 n h)

-- It has at most 19 exactly if the number is below 10^19.
pub short-print_uint : (n : ℕ) → n < 10 ^ 19 → text_length (print_uint n) ≤ 19
unfolding print_uint
short-print_uint n h = length-digits_before 20 19 n "" (digits_19 n h)

pub long-print_uint : (n : ℕ) → 10 ^ 19 ≤ n → n < 2 ^ 64 → text_length (print_uint n) ≡ 20
unfolding print_uint
long-print_uint n l h = exact_length 20 20 n "" (omega arith) (exact_20 n l h)

-- A number with so many digits at least.
abbrev pub HasAtLeast : ℕ → ℕ → Type 0
HasAtLeast zero n = Unit
HasAtLeast (suc zero) n = Unit
HasAtLeast (suc (suc k)) n = (10 ≤ n) × HasAtLeast (suc k) (n / 10)

least_length :
    (m k n : ℕ) (t : String)
    → k ≤ m
    → HasAtLeast k n
    → k + text_length t ≤ text_length (digits_before m n t)
unfolding digits_before
least_length zero zero n t h d = omega arith
least_length zero (suc k) n t h d = absurd (omega (arith, h))
least_length (suc m) zero n t h d = elim (Bool-cases (ltb n 10)) [
  | inl e ↦ rw e (omega (arith, length-digit_before n t))
  | inr e ↦ rw e (
      omega (
        arith,
        length-digit_before (n % 10) t,
        least_length m zero (n / 10) (digit_before (n % 10) t) (omega arith) tt,
      ))
]
least_length (suc m) (suc zero) n t h d = elim (Bool-cases (ltb n 10)) [
  | inl e ↦ rw e (omega (arith, length-digit_before n t))
  | inr e ↦ rw e (
      omega (
        arith,
        length-digit_before (n % 10) t,
        least_length m zero (n / 10) (digit_before (n % 10) t) (omega arith) tt,
      ))
]
least_length (suc m) (suc (suc k)) n t h (b, d) =
    let e : ltb n 10 ≡ false = ground (arith, b) in
    rw e (
      omega (
        arith,
        length-digit_before (n % 10) t,
        least_length m (suc k) (n / 10) (digit_before (n % 10) t) (omega (arith, h)) d,
      ))

pub most-print_uint : (k n : ℕ) → HasAtMost k n → text_length (print_uint n) ≤ k
unfolding print_uint
most-print_uint k n d = omega (arith, length-digits_before 20 k n "" d)

pub least-print_uint : (k n : ℕ) → k ≤ 20 → HasAtLeast k n → k ≤ text_length (print_uint n)
unfolding print_uint
least-print_uint k n h d = omega (arith, least_length 20 k n "" h d)
