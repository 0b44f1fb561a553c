-- ===== src/Example/Overflow.antt =====
-- Where the arithmetic of examples/binding_consumer/bindingdemo/_demo.cpp overflows: widget_perimeter and
-- triple on the way to their results exactly where these do not fit.
use sciforge.Base.{◌≡◌, ◌⊎◌, refl, arith, none, some, Bool-cases, inl, inr}
use sciforge.Base.Int.{ℤ, pos, negsuc, leb_ℤ, ◌+ℤ◌, ◌*ℤ◌}
use sciforge.Binding.Convert.{i64, min_of, max_of}
use sciforge.Binding.Convert.Integers.{InRange}
use sciforge.Example.Widget.{Widget, in_long_long, widget_perimeter}
use sciforge.Example.Functions.{triple}

in_long_long_cases :
    (n : ℤ)
    → (InRange i64 n × (in_long_long n ≡ some n)) ⊎ ((¬ (InRange i64 n)) × (in_long_long n ≡ none))
unfolding in_long_long
in_long_long_cases n = elim (Bool-cases (leb_ℤ (min_of i64) n)) [
  | inr below ↦ inr ((λ h. ground (arith, h, below)), rw below refl)
  | inl low ↦ elim (Bool-cases (leb_ℤ n (pos (max_of i64)))) [
    | inr above ↦ inr ((λ h. ground (arith, h, above)), rw (low, above) refl)
    | inl high ↦ inl ((ground (arith, low), ground (arith, high)), rw (low, high) refl)
  ]
]

-- The sum does not overflow where its double does not.
doubled-InRange : (s : ℤ) → InRange i64 (pos 2 *ℤ s) → InRange i64 s
doubled-InRange (pos n) h = ground (arith, h)
doubled-InRange (negsuc n) h = ground (arith, h)

-- The perimeter is twice the exact sum of the sides wherever that fits a long long, and overflows
-- exactly where it does not: the sum on the way adds no overflow of its own.
pub widget_perimeter_lem : (g : Widget) → widget_perimeter g ≡ in_long_long (pos 2 *ℤ (g.w +ℤ g.h))
unfolding widget_perimeter
widget_perimeter_lem g = elim (in_long_long_cases (g.w +ℤ g.h)) [
  | inl (fits, is) ↦ rw is refl
  | inr (over, is) ↦ elim (in_long_long_cases (pos 2 *ℤ (g.w +ℤ g.h))) [
    | inl (fits, doubled) ↦ absurd (over (doubled-InRange (g.w +ℤ g.h) fits))
    | inr (both, doubled) ↦ rw (is, doubled) refl
  ]
]

last-InRange : (n : ℤ) → InRange i64 n → InRange i64 (n +ℤ pos 2) → InRange i64 (n +ℤ pos 1)
last-InRange (pos n) b h = ground (arith, b, h)
last-InRange (negsuc n) b h = ground (arith, b, h)

-- For a long long, triple gives it with the next two exactly where the last of them fits.
pub triple_lem :
    (n : ℤ)
    → InRange i64 n
    → (InRange i64 (n +ℤ pos 2) × (triple n ≡ some (n, n +ℤ pos 1, n +ℤ pos 2)))
      ⊎ ((¬ (InRange i64 (n +ℤ pos 2))) × (triple n ≡ none))
unfolding triple
triple_lem n b = elim (in_long_long_cases (n +ℤ pos 2)) [
  | inl (fits, last) ↦ elim (in_long_long_cases (n +ℤ pos 1)) [
    | inl (h, next) ↦ inl (fits, rw (next, last) refl)
    | inr (over, next) ↦ absurd (over (last-InRange n b fits))
  ]
  | inr (over, last) ↦ elim (in_long_long_cases (n +ℤ pos 1)) [
    | inl (h, next) ↦ inr (over, rw (next, last) refl)
    | inr (both, next) ↦ inr (over, rw next refl)
  ]
]
