-- ===== src/Binding/Python.antt =====
-- What the binding substrate sees of the interpreter: the error indicator, the references that the
-- C++ code owns, and computations that read and change them and may throw a C++ exception.
use sciforge.Base.{
  ℕ, ◌≡◌, ◌⊎◌, Bytes, Bool, true, false, List, [], ◌∷◌, ◌++◌, Option, none, some, ◌==◌,
  if◌then◌else◌,
}
use sciforge.Base.Int.{ℤ}
use sciforge.Cpp.{Exn, Result, ok, throw}

-- A PyObject*: an address, or `none` for a null pointer.
abbrev pub Ptr : Type 0
Ptr = Option ℕ

-- The error indicator, where it is set: one of the exceptions that the substrate raises, an instance
-- of the module's error type, or one that Python itself has set.
pub data PyError : Type 0 where
  type_error : Bytes → PyError
  memory_error : PyError
  system_error : Bytes → PyError
  module_error : Ptr → Bytes → PyError
  python_error : ℕ → PyError

-- `stored` is what has been put into new lists and tuples: container, index and element.
pub record World : Type 0 where
  pub error : Option PyError
  pub owned : List ℕ
  pub stored : List (ℕ × ℕ × ℕ)

-- A C++ computation over the interpreter: the state is kept when it throws.
abbrev pub Py : Type 0 → Type 0
Py A = World → Result A × World

abbrev pub pure : {A : Type 0} → A → Py A
pure a w = (ok a, w)

abbrev pub raise : {A : Type 0} → Exn → Py A
raise e w = (throw e, w)

abbrev pub and_then : {A B : Type 0} → Result A → (A → Py B) → Py B
and_then (ok a) f w = f a w
and_then (throw e) f w = (throw e, w)

infixl 5 ◌>>=◌
abbrev pub ◌>>=◌ : {A B : Type 0} → Py A → (A → Py B) → Py B
◌>>=◌ m f w = let (r, w') = m w in and_then r f w'

-- PyErr_SetString and its like, PyErr_Clear, PyErr_Occurred.
abbrev pub set_error : PyError → World → World
set_error e w = record w { error = some e }

abbrev pub clear_error : World → World
clear_error w = record w { error = none }

abbrev pub is_some : {A : Type 0} → Option A → Bool
is_some none = false
is_some (some a) = true

abbrev pub occurred : World → Bool
occurred w = is_some w.error

-- Py_DECREF gives up one of the references owned; a stolen reference is given up too.
unfoldable pub release : ℕ → List ℕ → List ℕ
release o [] = []
release o (p ∷ ps) = if p == o then ps else p ∷ release o ps

abbrev pub decref : ℕ → World → World
decref o w = record w { owned = release o w.owned }

-- Py_XDECREF: nothing at a null pointer.
abbrev pub xdecref : Ptr → World → World
xdecref none w = w
xdecref (some o) w = decref o w

-- What CPython documents of a call that makes an object: a new reference, which the caller owns, or
-- a null pointer with an error set.
abbrev pub MakesObject : (World → Ptr × World) → Type 0
MakesObject f =
    (w : World)
    → ((o : ℕ) × (f w ≡ (some o, record w { owned = o ∷ w.owned })))
      ⊎ ((e : PyError) × (f w ≡ (none, record w { error = some e })))

-- PyList_SetItem and PyTuple_SetItem steal the reference to the element.
abbrev pub set_item : ℕ → ℕ → ℕ → World → World
set_item container i element w = record (decref element w) {
  stored = w.stored ++ (container, i, element) ∷ [];
}

-- A double is its 64 bits: the code hands it on, and compares it with -1.0 alone, which has one pattern.
abbrev pub Double : Type 0
Double = ℕ

-- The functions of CPython that the casters call. An answer is -1 (`negsuc 0`), the largest unsigned
-- number, -1.0 or a null pointer where the call has failed with an error set.
pub record Python : Type 0 where
  pub none_object : ℕ
  pub object_type : ℕ → World → Ptr × World
  pub name_attribute : ℕ → World → Ptr × World
  pub is_long : ℕ → Bool
  pub is_unicode : ℕ → Bool
  pub is_bytes : ℕ → Bool
  pub is_true : ℕ → World → ℤ × World
  pub as_long_long : ℕ → World → ℤ × World
  pub as_unsigned_long_long : ℕ → World → ℕ × World
  pub as_double : ℕ → World → Double × World
  pub as_utf8_and_size : ℕ → World → Option Bytes × World
  pub bytes_as_string : ℕ → World → Option Bytes × World
  pub bool_from_long : ℕ → World → Ptr × World
  pub long_from_long_long : ℤ → World → Ptr × World
  pub long_from_unsigned : ℕ → World → Ptr × World
  pub float_from_double : Double → World → Ptr × World
  pub unicode_from_string : Bytes → World → Ptr × World
  pub list_new : ℕ → World → Ptr × World
  pub tuple_new : ℕ → World → Ptr × World
