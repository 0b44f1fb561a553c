-- ===== src/Binding/Convert/Casters.antt =====
-- The class template caster of include/sciforge/binding/convert.hpp: the C++ types that it is
-- specialised for, and the conversion that it picks for each, in the two directions.
use sciforge.Base.{ℕ, Bytes, Bool, List, [], ◌∷◌, Option, if◌then◌else◌}
use sciforge.Base.Int.{ℤ}
use sciforge.Cpp.{ok}
use sciforge.Binding.Python.{Ptr, World, Double, Py, Python}
use sciforge.Binding.Convert.{
  IntType, object_from_python, object_to_python, bool_from_python, int_from_python, int_to_python,
  as_utf8, bytes_from_python, double_from_python, double_to_python, optional_from_python,
  vector_to_python, tuple_to_python,
}

-- The types of arguments: PyObject*, double, bool, the integral types, std::string or
-- std::string_view, bytes_view, and std::optional of one of these.
pub data Arg : Type 0 where
  object boolean string bytes_view double : Arg
  integer : IntType → Arg
  optional : Arg → Arg

abbrev pub ArgValue : Arg → Type 0
ArgValue Arg.object = ℕ
ArgValue Arg.boolean = Bool
ArgValue Arg.string = Bytes
ArgValue bytes_view = Bytes
ArgValue Arg.double = Double
ArgValue (Arg.integer T) = ℤ
ArgValue (optional c) = Option (ArgValue c)

-- The types of results: PyObject*, double, bool, the integral types, the two strings, std::vector of one type
-- and std::tuple of several.
mutual
  pub data Ret : Type 0 where
    object boolean string double : Ret
    integer : IntType → Ret
    vector : Ret → Ret
    tuple : Rets → Ret

  pub data Rets : Type 0 where
    no_more : Rets
    and_one : Ret → Rets → Rets

abbrev mutual
  pub RetValue : Ret → Type 0
  RetValue Ret.object = Ptr
  RetValue Ret.boolean = Bool
  RetValue Ret.string = Bytes
  RetValue Ret.double = Double
  RetValue (Ret.integer T) = ℤ
  RetValue (vector c) = List (RetValue c)
  RetValue (tuple cs) = RetValues cs

  pub RetValues : Rets → Type 0
  RetValues no_more = Unit
  RetValues (and_one c cs) = RetValue c × RetValues cs

-- A call that gives a pointer and throws nothing.
abbrev pub plain_call : (World → Ptr × World) → Py Ptr
plain_call f w = let (r, w') = f w in (ok r, w')

module _ (P : Python) where
  -- caster<T>::from_python.
  unfoldable pub from_python : (c : Arg) → ℕ → Py (ArgValue c)
  unfolding object_from_python bool_from_python int_from_python as_utf8 bytes_from_python
      optional_from_python
  from_python Arg.object = object_from_python P
  from_python Arg.boolean = bool_from_python P
  from_python Arg.string = as_utf8 P
  from_python bytes_view = bytes_from_python P
  from_python Arg.double = double_from_python P
  from_python (Arg.integer T) = int_from_python P T
  from_python (optional c) = optional_from_python P (from_python c)

  -- caster<bool>::to_python, and to_python_utf8 with the size of the text, which
  -- PyUnicode_FromStringAndSize takes.
  unfoldable pub bool_to_python : Bool → World → Ptr × World
  bool_to_python value = P.bool_from_long (if value then 1 else 0)

  -- caster<T>::to_python; the conversions of a tuple's elements, each by its own caster, in order.
  unfoldable mutual
    pub to_python : (c : Ret) → RetValue c → Py Ptr
    to_python Ret.object o = object_to_python P o
    to_python Ret.boolean value = plain_call (bool_to_python value)
    to_python Ret.string value = plain_call (P.unicode_from_string value)
    to_python Ret.double value = plain_call (double_to_python P value)
    to_python (Ret.integer T) value = plain_call (int_to_python P T value)
    to_python (vector c) items = vector_to_python P (to_python c) items
    to_python (tuple cs) values = tuple_to_python P (elements cs values)

    pub elements : (cs : Rets) → RetValues cs → List (Py Ptr)
    elements no_more values = []
    elements (and_one c cs) (value, values) = to_python c value ∷ elements cs values
