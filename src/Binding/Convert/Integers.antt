-- ===== src/Binding/Convert/Integers.antt =====
-- The integer caster of include/sciforge/binding/convert.hpp is exact: it takes what fits in the type
-- and refuses all else.
use sciforge.Base.{ℕ, ◌≡◌, ◌⊎◌, refl, leb, true, false, none, arith, inl, inr, Bool-cases}
use sciforge.Base.Int.{ℤ, pos, negsuc, pos_part, ◌≤ℤ◌}
use sciforge.Cpp.{Result, ok, throw}
use sciforge.Binding.Python.{PyError, World, Python, set_error, clear_error}
use sciforge.Binding.Convert.{
  IntType, i8, i16, i32, i64, u8, u16, u32, u64, max_of, min_of, max_unsigned, fits, out_of_range,
  from_wide, from_wide_unsigned, int_from_python,
}

abbrev pub InRange : IntType → ℤ → Type 0
InRange T v = (min_of T ≤ℤ v) × (v ≤ℤ pos (max_of T))

-- What CPython documents of reading an int object whose value is `value o`: the value where it fits
-- the C type, else an error and -1 (as the unsigned type: its largest number).
pub record ReadsLongs (P : Python) (value : ℕ → ℤ) : Type 0 where
  pub long_long : (o : ℕ) (w : World) → InRange i64 (value o) → P.as_long_long o w ≡ (value o, w)
  pub long_long_overflow :
      (o : ℕ) (w : World)
      → ¬ (InRange i64 (value o))
      → (e : PyError) × (P.as_long_long o w ≡ (negsuc 0, set_error e w))
  pub unsigned :
      (o : ℕ) (w : World)
      → InRange u64 (value o)
      → P.as_unsigned_long_long o w ≡ (pos_part (value o), w)
  pub unsigned_overflow :
      (o : ℕ) (w : World)
      → ¬ (InRange u64 (value o))
      → (e : PyError) × (P.as_unsigned_long_long o w ≡ (max_unsigned, set_error e w))

-- The types that a long long holds.
abbrev Narrow : IntType → Type 0
Narrow u64 = ⊥
Narrow i8 = Unit
Narrow i16 = Unit
Narrow i32 = Unit
Narrow i64 = Unit
Narrow u8 = Unit
Narrow u16 = Unit
Narrow u32 = Unit

abbrev Exact : IntType → ℤ → World → Result ℤ × World → Type 0
Exact T v w r =
    (InRange T v × (r ≡ (ok v, w))) ⊎ ((¬ (InRange T v)) × (r ≡ (throw out_of_range, w)))

-- `fits` decides the range, for a value that a long long holds.
fits_cases :
    (T : IntType) (v : ℤ)
    → Narrow T
    → ((fits T v ≡ true) × InRange T v) ⊎ ((fits T v ≡ false) × (¬ (InRange T v)))
fits_cases i8 v n = ground arith
fits_cases i16 v n = ground arith
fits_cases i32 v n = ground arith
fits_cases i64 v n = ground arith
fits_cases u8 v n = ground arith
fits_cases u16 v n = ground arith
fits_cases u32 v n = ground arith
fits_cases u64 v n = absurd n

narrow_range : (T : IntType) (v : ℤ) → Narrow T → InRange T v → InRange i64 v
narrow_range i8 v n h = omega arith
narrow_range i16 v n h = omega arith
narrow_range i32 v n h = omega arith
narrow_range i64 v n h = h
narrow_range u8 v n h = omega arith
narrow_range u16 v n h = omega arith
narrow_range u32 v n h = omega arith
narrow_range u64 v n h = absurd n

u64_cases : (v : ℤ) → InRange u64 v ⊎ (¬ (InRange u64 v))
u64_cases (pos n) = elim (Bool-cases (leb n max_unsigned)) [
  | inl small ↦ inl (ground arith)
  | inr big ↦ inr λ h. ground arith
]
u64_cases (negsuc n) = inr λ h. omega arith

clear-set_error : (e : PyError) (w : World) → w.error ≡ none → clear_error (set_error e w) ≡ w
clear-set_error e w h = ground arith

from_wide-Exact :
    (T : IntType) (v : ℤ) (w : World) → Narrow T → w.error ≡ none → Exact T v w (from_wide T (v, w))
unfolding from_wide
from_wide-Exact T (pos k) w n h = elim (fits_cases T (pos k) n) [
  | inl yes_it_fits ↦ inl (yes_it_fits.1, rw yes_it_fits.0)
  | inr it_does_not ↦ inr (it_does_not.1, rw it_does_not.0)
]
from_wide-Exact T (negsuc k) w n h = elim (fits_cases T (negsuc k) n) [
  | inl yes_it_fits ↦ inl (yes_it_fits.1, ground (arith, yes_it_fits.0))
  | inr it_does_not ↦ inr (it_does_not.1, ground (arith, it_does_not.0))
]

from_wide_failed :
    (T : IntType) (e : PyError) (w : World)
    → w.error ≡ none
    → from_wide T (negsuc 0, set_error e w) ≡ (throw out_of_range, w)
unfolding from_wide
from_wide_failed T e w h = rw (clear-set_error e w h)

u64_read :
    (v : ℤ) (w : World)
    → InRange u64 v
    → w.error ≡ none
    → from_wide_unsigned (pos_part v, w) ≡ (ok v, w)
unfolding from_wide_unsigned
u64_read (pos n) w h e = ground arith
u64_read (negsuc n) w h e = absurd (omega arith)

module _ (P : Python) (value : ℕ → ℤ) (laws : ReadsLongs P value) where
  narrow-Exact :
      (T : IntType) (o : ℕ) (w : World)
      → Narrow T
      → w.error ≡ none
      → Exact T (value o) w (from_wide T (P.as_long_long o w))
  narrow-Exact T o w n h = elim (fits_cases i64 (value o) tt) [
    | inl (_, inside) ↦ rw (laws.long_long o w inside) (from_wide-Exact T (value o) w n h)
    | inr (_, outside) ↦
        let (e, fails) = laws.long_long_overflow o w outside in
        inr (λ h'. outside (narrow_range T (value o) n h'), rw fails (from_wide_failed T e w h))
  ]

  u64-Exact :
      (o : ℕ) (w : World)
      → w.error ≡ none
      → Exact u64 (value o) w (from_wide_unsigned (P.as_unsigned_long_long o w))
  unfolding from_wide_unsigned
  u64-Exact o w h = elim (u64_cases (value o)) [
    | inl inside ↦ inl (inside, rw (laws.unsigned o w inside) (u64_read (value o) w inside h))
    | inr outside ↦
        let (e, fails) = laws.unsigned_overflow o w outside in
        inr (outside, rw (fails, clear-set_error e w h) refl)
  ]

  -- Where CPython reads an int object as it documents, the object is read exactly, for every integral
  -- type and with no error pending: the caster gives its value when that lies in the type's range, and
  -- throws "int out of range" when it does not; either way no error is left set and nothing else has
  -- changed.
  pub int_from_python_exact :
      (T : IntType) (o : ℕ) (w : World)
      → P.is_long o ≡ true
      → w.error ≡ none
      → let r = int_from_python P T o w in
        (InRange T (value o) × (r ≡ (ok (value o), w)))
        ⊎ ((¬ (InRange T (value o))) × (r ≡ (throw out_of_range, w)))
  unfolding int_from_python
  int_from_python_exact u64 o w l h = rw l (u64-Exact o w h)
  int_from_python_exact i8 o w l h = rw l (narrow-Exact i8 o w tt h)
  int_from_python_exact i16 o w l h = rw l (narrow-Exact i16 o w tt h)
  int_from_python_exact i32 o w l h = rw l (narrow-Exact i32 o w tt h)
  int_from_python_exact i64 o w l h = rw l (narrow-Exact i64 o w tt h)
  int_from_python_exact u8 o w l h = rw l (narrow-Exact u8 o w tt h)
  int_from_python_exact u16 o w l h = rw l (narrow-Exact u16 o w tt h)
  int_from_python_exact u32 o w l h = rw l (narrow-Exact u32 o w tt h)
