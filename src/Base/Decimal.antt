-- ===== src/Base/Decimal.antt =====
-- Decimal print, as `std::to_string` and printf's `%d`, `%zu` write an integer.
use sciforge.Base.Tests.{ltb, if◌then◌else◌, Bool-cases}
use sciforge.Base.Chars.{Bytes, codes}
use sciforge.Base.Lists.{All}
use sciforge.Base.Int.{ℤ, pos, negsuc}
use Prim.Native.Nat.{ℕ, zero, suc, ◌+◌, ◌-◌, ◌*◌, ◌/◌, ◌%◌, ◌≤◌}
use mathlib.Core.Path.{◌≡◌, refl, ap}
use mathlib.Core.Logic.{inl, inr}
use mathlib.Core.List.{[], ◌∷◌, foldl}
use native.Mathlib.Omega.{arith}

-- The decimal digits of `n`, given at least `n` rounds of fuel, in front of `out`.
digits : ℕ → ℕ → Bytes → Bytes
digits zero n out = (b'0' + n % 10) ∷ out
digits (suc f) n out =
    let more = digits f (n / 10) ((b'0' + n % 10) ∷ out) in
    if ltb n 10 then (b'0' + n % 10) ∷ out else more

unfoldable pub print_nat : ℕ → Bytes
unfolding digits
print_nat n = digits n n []

unfoldable pub print_int : ℤ → Bytes
unfolding print_nat
print_int (pos n) = print_nat n
print_int (negsuc n) = b'-' ∷ print_nat (n + 1)

-- The number that digits spell behind `acc`.
abbrev pub decimal_value : ℕ → Bytes → ℕ
decimal_value = foldl (λ n c. n * 10 + (c - b'0'))

digits-value :
    (f n : ℕ) (out : Bytes) → n ≤ f → decimal_value 0 (digits f n out) ≡ decimal_value n out
unfolding digits
digits-value zero n out h = ap (λ (k : ℕ). decimal_value k out) (omega arith)
digits-value (suc f) n out h = elim (Bool-cases (ltb n 10)) [
  | inl small ↦ rw small (ap (λ (k : ℕ). decimal_value k out) (ground arith))
  | inr big ↦
      rw (big, digits-value f (n / 10) ((b'0' + n % 10) ∷ out) (ground arith))
        (ap (λ (k : ℕ). decimal_value k out) (omega arith))
]

-- The digits printed spell the number.
pub print_nat-value : (n : ℕ) → decimal_value 0 (print_nat n) ≡ n
unfolding print_nat
print_nat-value n = digits-value n n [] (omega arith)

print_max : print_nat 18446744073709551615 ≡ codes "18446744073709551615"
unfolding print_nat
print_max = refl

print_negative : print_int (negsuc 41) ≡ codes "-42"
unfolding print_int
print_negative = refl

abbrev pub IsDigit : ℕ → Type 0
IsDigit c = (b'0' ≤ c) × (c ≤ b'9')

digits-IsDigit : (f n : ℕ) (out : Bytes) → All IsDigit out → All IsDigit (digits f n out)
unfolding digits
digits-IsDigit zero n out h = ((omega arith, omega arith), h)
digits-IsDigit (suc f) n out h = elim (Bool-cases (ltb n 10)) [
  | inl small ↦ rw small ((omega arith, omega arith), h)
  | inr big ↦
      rw big (digits-IsDigit f (n / 10) ((b'0' + n % 10) ∷ out) ((omega arith, omega arith), h))
]

pub print_nat-IsDigit : (n : ℕ) → All IsDigit (print_nat n)
unfolding print_nat
print_nat-IsDigit n = digits-IsDigit n n [] tt
