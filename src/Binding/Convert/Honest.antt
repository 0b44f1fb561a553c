-- ===== src/Binding/Convert/Honest.antt =====
-- The casters of include/sciforge/binding/convert.hpp and Python's error indicator: a conversion gives
-- a value with no error set, or throws; error_already_set only where an error is.
use sciforge.Base.{
  ℕ, ◌≡◌, ◌≢◌, ◌⊎◌, refl, Bytes, codes, Bool, true, false, ◌&&◌, [], Option, none, some, inl, inr,
  Bool-cases, Option-cases, ◌==◌, if◌then◌else◌,
}
use sciforge.Base.Int.{ℤ, negsuc}
use sciforge.Cpp.{cast_error, error_already_set}
use sciforge.Binding.Python.{Double, World, Py, Python, occurred}
use sciforge.Binding.Convention.{EndsHonest, IsHonest, >>=-IsHonest}
use sciforge.Binding.Convert.{
  minus_one_double, from_double, double_from_python, IntType, expected, object_from_python, i8, i16,
  i32, i64, u8, u16, u32, u64, fits, max_unsigned, minus_one, from_wide, from_wide_unsigned,
  read_or, truth_of, bool_from_python, int_from_python, as_utf8, bytes_from_python,
  optional_from_python,
}
use sciforge.Binding.Convert.Casters.{Arg, bytes_view, optional, from_python}

-- How a read of an object may end that answers with an error value: none set, or that value.
abbrev pub Answers : {A : Type 0} → A → A × World → Type 0
Answers failure (a, w) = (w.error ≡ none) ⊎ ((a ≡ failure) × (w.error ≢ none))

-- What CPython documents of the calls that read an object, begun with no error set.
pub record ReadsObjects (P : Python) : Type 0 where
  pub truth : (o : ℕ) (w : World) → w.error ≡ none → EndsHonest (truth_of P (P.is_true o w))
  pub long_long : (o : ℕ) (w : World) → w.error ≡ none → Answers (negsuc 0) (P.as_long_long o w)
  pub unsigned :
      (o : ℕ) (w : World) → w.error ≡ none → Answers max_unsigned (P.as_unsigned_long_long o w)
  pub double : (o : ℕ) (w : World) → w.error ≡ none → Answers minus_one_double (P.as_double o w)
  pub utf8 :
      (o : ℕ) (w : World)
      → w.error ≡ none
      → EndsHonest (read_or P error_already_set (P.as_utf8_and_size o w))
  pub bytes_read :
      (o : ℕ) (w : World)
      → w.error ≡ none
      → EndsHonest (read_or P (cast_error []) (P.bytes_as_string o w))

no_error_test : (b : Bool) (w : World) → w.error ≡ none → (b && occurred w) ≡ false
no_error_test true w clean = rw clean refl
no_error_test false w clean = refl

from_wide-EndsHonest :
    (T : IntType) (wide : ℤ) (w : World)
    → Answers (negsuc 0) (wide, w)
    → EndsHonest (from_wide T (wide, w))
unfolding from_wide
from_wide-EndsHonest T wide w (inr (failed, set)) = elim (Option-cases w.error) [
  | inl n ↦ absurd (set n)
  | inr (e, h) ↦ rw (failed, h) tt
]
from_wide-EndsHonest T wide w (inl clean) = elim (Bool-cases (fits T wide)) [
  | inl within ↦ rw (no_error_test (minus_one wide) w clean, within) clean
  | inr outside ↦ rw (no_error_test (minus_one wide) w clean, outside) tt
]

from_wide_unsigned-EndsHonest :
    (wide : ℕ) (w : World)
    → Answers max_unsigned (wide, w)
    → EndsHonest (from_wide_unsigned (wide, w))
unfolding from_wide_unsigned
from_wide_unsigned-EndsHonest wide w (inr (failed, set)) = elim (Option-cases w.error) [
  | inl n ↦ absurd (set n)
  | inr (e, h) ↦ rw (failed, h) tt
]
from_wide_unsigned-EndsHonest wide w (inl clean) =
    rw (no_error_test (wide == max_unsigned) w clean) clean

module _ (P : Python) (reads : ReadsObjects P) where
  narrow-IsHonest :
      (T : IntType) (o : ℕ) (w : World)
      → w.error ≡ none
      → EndsHonest
          (if P.is_long o then from_wide T (P.as_long_long o w) else expected P (codes "int") o w)
  narrow-IsHonest T o w clean = elim (Bool-cases (P.is_long o)) [
    | inl is_int ↦ rw is_int (
        from_wide-EndsHonest T (P.as_long_long o w).0 (P.as_long_long o w).1
          (reads.long_long o w clean))
    | inr other ↦ rw other tt
  ]

  wide-IsHonest :
      (o : ℕ) (w : World)
      → w.error ≡ none
      → EndsHonest (
          if P.is_long o
          then from_wide_unsigned (P.as_unsigned_long_long o w)
          else expected P (codes "int") o w)
  wide-IsHonest o w clean = elim (Bool-cases (P.is_long o)) [
    | inl is_int ↦ rw is_int (
        from_wide_unsigned-EndsHonest (P.as_unsigned_long_long o w).0
          (P.as_unsigned_long_long o w).1 (reads.unsigned o w clean))
    | inr other ↦ rw other tt
  ]

  int_from_python-IsHonest : (T : IntType) (o : ℕ) → IsHonest (int_from_python P T o)
  unfolding int_from_python
  int_from_python-IsHonest u64 o w clean = wide-IsHonest o w clean
  int_from_python-IsHonest i8 o w clean = narrow-IsHonest i8 o w clean
  int_from_python-IsHonest i16 o w clean = narrow-IsHonest i16 o w clean
  int_from_python-IsHonest i32 o w clean = narrow-IsHonest i32 o w clean
  int_from_python-IsHonest i64 o w clean = narrow-IsHonest i64 o w clean
  int_from_python-IsHonest u8 o w clean = narrow-IsHonest u8 o w clean
  int_from_python-IsHonest u16 o w clean = narrow-IsHonest u16 o w clean
  int_from_python-IsHonest u32 o w clean = narrow-IsHonest u32 o w clean

  from_double-EndsHonest :
      (o : ℕ) (value : Double) (w : World)
      → Answers minus_one_double (value, w)
      → EndsHonest (from_double P o (value, w))
  from_double-EndsHonest o value w (inr (failed, set)) = elim (Option-cases w.error) [
    | inl n ↦ absurd (set n)
    | inr (e, h) ↦ rw (failed, h) tt
  ]
  from_double-EndsHonest o value w (inl clean) =
      rw (no_error_test (value == minus_one_double) w clean) clean

  double_from_python-IsHonest : (o : ℕ) → IsHonest (double_from_python P o)
  unfolding double_from_python
  double_from_python-IsHonest o w clean =
      from_double-EndsHonest o (P.as_double o w).0 (P.as_double o w).1 (reads.double o w clean)

  as_utf8-IsHonest : (o : ℕ) → IsHonest (as_utf8 P o)
  unfolding as_utf8
  as_utf8-IsHonest o w clean = elim (Bool-cases (P.is_unicode o)) [
    | inl is_str ↦ rw is_str (reads.utf8 o w clean)
    | inr other ↦ rw other tt
  ]

  cast-EndsHonest :
      (what : Bytes) (r : Option Bytes) (w : World)
      → EndsHonest (read_or P (cast_error []) (r, w))
      → EndsHonest (read_or P (cast_error what) (r, w))
  cast-EndsHonest what none w h = tt
  cast-EndsHonest what (some text) w h = h

  bytes_from_python-IsHonest : (o : ℕ) → IsHonest (bytes_from_python P o)
  unfolding bytes_from_python
  bytes_from_python-IsHonest o w clean = elim (Bool-cases (P.is_bytes o)) [
    | inl is_bytes ↦ rw is_bytes (
        cast-EndsHonest (codes "invalid bytes") (P.bytes_as_string o w).0 (P.bytes_as_string o w).1
          (reads.bytes_read o w clean))
    | inr other ↦ rw other tt
  ]

  optional_from_python-IsHonest :
      {A : Type 0} (from : ℕ → Py A) (o : ℕ)
      → ((o' : ℕ) → IsHonest (from o'))
      → IsHonest (optional_from_python P from o)
  unfolding optional_from_python
  optional_from_python-IsHonest from o h w clean = elim (Bool-cases (o == P.none_object)) [
    | inl absent ↦ rw absent clean
    | inr given ↦ rw given (>>=-IsHonest (from o) _ (h o) (λ a v e. e) w clean)
  ]

  -- Each caster of an argument, for every type it can be of and to any depth of optionals, begun with no
  -- error set, gives a value and none is set then, or throws; and it throws error_already_set only where
  -- an error is set. The calls of CPython that read an object do what it documents of them.
  pub from_python-IsHonest : (c : Arg) (o : ℕ) → IsHonest (from_python P c o)
  unfolding from_python bool_from_python object_from_python
  from_python-IsHonest Arg.object o w clean = clean
  from_python-IsHonest Arg.boolean o w clean = reads.truth o w clean
  from_python-IsHonest Arg.string o w clean = as_utf8-IsHonest o w clean
  from_python-IsHonest bytes_view o w clean = bytes_from_python-IsHonest o w clean
  from_python-IsHonest Arg.double o w clean = double_from_python-IsHonest o w clean
  from_python-IsHonest (Arg.integer T) o w clean = int_from_python-IsHonest T o w clean
  from_python-IsHonest (optional c) o w clean =
      optional_from_python-IsHonest (from_python P c) o (from_python-IsHonest c) w clean
