-- ===== src/Binding/Convert.antt =====
-- include/sciforge/binding/convert.hpp: the casters between C++ values and Python objects.
pub mod Integers
pub mod Containers
pub mod Casters
pub mod Honest
pub mod Results
pub mod Doubles
pub mod Refusals
mod Tests
use sciforge.Base.{
  ℕ, zero, suc, ◌-◌, ◌^◌, Bytes, codes, Bool, true, false, not, ◌&&◌, List, [], ◌∷◌, ◌++◌, map,
  Option, none, some, leb, ◌==◌, if◌then◌else◌, length,
}
use sciforge.Base.Int.{ℤ, pos, negsuc, pos_part, leb_ℤ}
use sciforge.Cpp.{Exn, Result, ok, throw, cast_error, error_already_set}
use sciforge.Binding.Python.{
  Ptr, PyError, World, Double, Py, pure, raise, ◌>>=◌, and_then, clear_error, occurred, decref,
  xdecref, set_item, Python,
}

-- The integral types that the one integer caster serves, by width and sign.
pub data IntType : Type 0 where
  i8 i16 i32 i64 u8 u16 u32 u64 : IntType

abbrev pub is_signed : IntType → Bool
is_signed i8 = true
is_signed i16 = true
is_signed i32 = true
is_signed i64 = true
is_signed u8 = false
is_signed u16 = false
is_signed u32 = false
is_signed u64 = false

-- `std::numeric_limits<T>::max()`, and -`min()`.
abbrev pub max_of : IntType → ℕ
max_of i8 = 2 ^ 7 - 1
max_of i16 = 2 ^ 15 - 1
max_of i32 = 2 ^ 31 - 1
max_of i64 = 2 ^ 63 - 1
max_of u8 = 2 ^ 8 - 1
max_of u16 = 2 ^ 16 - 1
max_of u32 = 2 ^ 32 - 1
max_of u64 = 2 ^ 64 - 1

abbrev pub min_of : IntType → ℤ
min_of i8 = negsuc (2 ^ 7 - 1)
min_of i16 = negsuc (2 ^ 15 - 1)
min_of i32 = negsuc (2 ^ 31 - 1)
min_of i64 = negsuc (2 ^ 63 - 1)
min_of u8 = pos 0
min_of u16 = pos 0
min_of u32 = pos 0
min_of u64 = pos 0

abbrev pub max_unsigned : ℕ
max_unsigned = 2 ^ 64 - 1

-- -1.0.
abbrev pub minus_one_double : Double
minus_one_double = 0xbff0_0000_0000_0000

abbrev pub minus_one : ℤ → Bool
minus_one (pos n) = false
minus_one (negsuc n) = n == 0

-- What the `fits` test of a type that a long long holds comes to.
abbrev pub fits : IntType → ℤ → Bool
fits T wide =
    if is_signed T
    then leb_ℤ (min_of T) wide && leb_ℤ wide (pos (max_of T))
    else leb_ℤ (pos 0) wide && leb (pos_part wide) (max_of T)

abbrev pub out_of_range : Exn
out_of_range = cast_error (codes "int out of range")

-- How a caster uses the answer of PyLong_AsLongLong, and of PyLong_AsUnsignedLongLong.
unfoldable pub from_wide : IntType → ℤ × World → Result ℤ × World
from_wide T (wide, w) =
    if minus_one wide && occurred w
    then (throw out_of_range, clear_error w)
    else if fits T wide
    then (ok wide, w)
    else (throw out_of_range, w)

unfoldable pub from_wide_unsigned : ℕ × World → Result ℤ × World
from_wide_unsigned (wide, w) =
    if (wide == max_unsigned) && occurred w
    then (throw out_of_range, clear_error w)
    else (ok (pos wide), w)

module _ (P : Python) where
  open P use {
    none_object, object_type, name_attribute, is_long, is_unicode, is_bytes, is_true, as_long_long,
    as_unsigned_long_long, as_double, as_utf8_and_size, bytes_as_string, bool_from_long,
    long_from_long_long, long_from_unsigned, unicode_from_string, list_new, tuple_new,
  }

  abbrev name_of : Ptr → World → Ptr × World
  name_of none w = (none, w)
  name_of (some type) w = name_attribute type w

  abbrev text_of : Ptr → World → Bytes × World
  text_of none w = (codes "?", w)
  text_of (some name) w =
      let (data_of, w') = as_utf8_and_size name w in
      (elim data_of [ none ↦ codes "?" | some text ↦ text ], w')

  unfoldable pub py_type_name : ℕ → World → Bytes × World
  py_type_name obj w =
      let (type, w₁) = object_type obj w in
      let (name, w₂) = name_of type w₁ in
      let (out, w₃) = text_of name w₂ in (out, xdecref type (xdecref name w₃))

  -- `throw cast_error("expected X, got " + py_type_name(obj))`.
  abbrev pub expected : {A : Type 0} → Bytes → ℕ → Py A
  expected what obj w =
      let (name, w') = py_type_name obj w in
      (throw (cast_error (codes "expected " ++ (what ++ (codes ", got " ++ name)))), w')

  -- caster<PyObject*>.
  unfoldable pub object_from_python : ℕ → Py ℕ
  object_from_python obj = pure obj

  unfoldable pub object_to_python : Ptr → Py Ptr
  object_to_python none = raise error_already_set
  object_to_python (some o) = pure (some o)

  abbrev truth_of : ℤ × World → Result Bool × World
  truth_of (negsuc n, w) = (throw error_already_set, w)
  truth_of (pos n, w) = (ok (not (n == 0)), w)

  -- caster<bool>.
  unfoldable pub bool_from_python : ℕ → Py Bool
  bool_from_python obj w = truth_of (is_true obj w)

  -- The caster of every other integral type.
  unfoldable pub int_from_python : IntType → ℕ → Py ℤ
  unfolding from_wide from_wide_unsigned
  int_from_python u64 obj w =
      if is_long obj
      then from_wide_unsigned (as_unsigned_long_long obj w)
      else expected (codes "int") obj w
  int_from_python T obj w =
      if is_long obj then from_wide T (as_long_long obj w) else expected (codes "int") obj w

  unfoldable pub int_to_python : IntType → ℤ → World → Ptr × World
  int_to_python T value w =
      if is_signed T then long_from_long_long value w else long_from_unsigned (pos_part value) w

  abbrev read_or : Exn → Option Bytes × World → Result Bytes × World
  read_or e (none, w) = (throw e, w)
  read_or e (some text, w) = (ok text, w)

  abbrev pub from_double : ℕ → Double × World → Result Double × World
  from_double obj (value, w) =
      if (value == minus_one_double) && occurred w
      then expected (codes "float") obj (clear_error w)
      else (ok value, w)

  -- caster<double>.
  unfoldable pub double_from_python : ℕ → Py Double
  double_from_python obj w = from_double obj (as_double obj w)

  -- caster<double>::to_python.
  abbrev pub double_to_python : Double → World → Ptr × World
  double_to_python value = P.float_from_double value

  -- as_utf8, which caster<std::string> and caster<std::string_view> call.
  unfoldable pub as_utf8 : ℕ → Py Bytes
  as_utf8 obj w =
      if is_unicode obj
      then read_or error_already_set (as_utf8_and_size obj w)
      else expected (codes "str") obj w

  -- caster<bytes_view>.
  unfoldable pub bytes_from_python : ℕ → Py Bytes
  bytes_from_python obj w =
      if is_bytes obj
      then read_or (cast_error (codes "invalid bytes")) (bytes_as_string obj w)
      else expected (codes "bytes") obj w

  -- caster<std::optional<T>>, over the caster of T.
  unfoldable pub optional_from_python : {A : Type 0} → (ℕ → Py A) → ℕ → Py (Option A)
  optional_from_python from obj =
      if obj == none_object then pure none else from obj >>= λ a. pure (some a)

  abbrev store : ℕ → ℕ → Ptr → Py (Unit {0})
  store container i none w = (throw error_already_set, w)
  store container i (some element) w = (ok tt, set_item container i element w)

  -- The loop of caster<std::vector<T>>, and set_all of caster<std::tuple<Ts...>>: each element is
  -- converted by its own caster and put in place.
  unfoldable pub fill : ℕ → ℕ → List (Py Ptr) → Py (Unit {0})
  fill container i [] = pure tt
  fill container i (convert ∷ rest) =
      convert >>= λ element. store container i element >>= λ _. fill container (suc i) rest

  -- `catch (...) { Py_DECREF(list); throw; }`.
  abbrev pub or_release : ℕ → Result (Unit {0}) × World → Result Ptr × World
  or_release container (ok u, w) = (ok (some container), w)
  or_release container (throw e, w) = (throw e, decref container w)

  abbrev pub built : List (Py Ptr) → Ptr × World → Result Ptr × World
  built items (none, w) = (throw error_already_set, w)
  built items (some container, w) = or_release container (fill container 0 items w)

  unfoldable pub vector_to_python : {A : Type 0} → (A → Py Ptr) → List A → Py Ptr
  vector_to_python element items w = built (map element items) (list_new (length items) w)

  unfoldable pub tuple_to_python : List (Py Ptr) → Py Ptr
  tuple_to_python items w = built items (tuple_new (length items) w)
