-- ===== src/Binding/Dispatch.antt =====
-- include/sciforge/binding/dispatch.hpp, the positional calls: function_traits, invoke, call_wrapper.
pub mod Calls
pub mod Typed
use sciforge.Base.{
  ℕ, Bytes, codes, Bool, true, false, List, [], ◌∷◌, ◌++◌, Option, none, some, ◌==◌, if◌then◌else◌,
  length,
}
use sciforge.Base.Decimal.{print_nat}
use sciforge.Cpp.{Result, ok, throw, cast_error, error_already_set}
use sciforge.Binding.Python.{Ptr, World, Py, pure, raise, ◌>>=◌, and_then, Python}
use sciforge.Binding.Convention.{settle}

-- A C++ function as function_traits reads its type: the caster of each parameter, the body, and the
-- caster of the return type (none for void). `V` holds the C++ values.
pub record CppFunction (V : Type 0) : Type 0 where
  pub casters : List (ℕ → Py V)
  pub body : List V → Py V
  pub to_python : Option (V → Py Ptr)

abbrev pub arity : {V : Type 0} → CppFunction V → ℕ
arity f = length f.casters

-- `throw cast_error("expected " + ... + " argument(s), got " + ...)`.
abbrev pub wrong_count : {A : Type 0} → ℕ → ℕ → Py A
wrong_count wanted given = raise (
    cast_error
      (codes "expected " ++ (print_nat wanted ++ (codes " argument(s), got " ++ print_nat given))))

-- `Py_RETURN_NONE` hands over a new reference to None.
abbrev return_none : Python → Py Ptr
return_none P w = (ok (some P.none_object), record w { owned = P.none_object ∷ w.owned })

-- A caster on the null pointer that PyTuple_GetItem gives behind the last item. It reads through it,
-- which C++ says nothing of: an error_already_set with no error set stands for that.
abbrev pub null_item : {A : Type 0} → Py A
null_item = raise error_already_set

module _ {V : Type 0} where
  -- The pack of from_python calls. C++ leaves their order open; here it is from the left.
  unfoldable pub extract : List (ℕ → Py V) → List ℕ → Py (List V)
  extract [] objs = pure []
  extract (c ∷ cs) [] = null_item
  extract (c ∷ cs) (o ∷ objs) = c o >>= λ v. extract cs objs >>= λ vs. pure (v ∷ vs)

  abbrev pub return_value : Python → Option (V → Py Ptr) → V → Py Ptr
  return_value P none v = return_none P
  return_value P (some to_python) v = to_python v

  -- detail::invoke and detail::invoke_objs: extract, call, convert.
  unfoldable pub invoke : Python → CppFunction V → List ℕ → Py Ptr
  invoke P f objs = extract f.casters objs >>= λ vs. f.body vs >>= λ v. return_value P f.to_python v

  abbrev pub checked_call : Python → CppFunction V → List ℕ → Py Ptr
  checked_call P f args =
      if length args == arity f then invoke P f args else wrong_count (arity f) (length args)

  -- call_wrapper; `error_type` is what Getter() gives, `args` the items of the argument tuple.
  unfoldable pub call_wrapper : Python → Ptr → CppFunction V → List ℕ → World → Ptr × World
  call_wrapper P error_type f args w = settle error_type (checked_call P f args w)

-- A PyMethodDef without its text: the name, the C function behind it (the entry point of a positional
-- function, that of a method, that of the keyword function `func`, or one of the module's own), and how
-- CPython calls it.
pub data MethodFlags : Type 0 where
  no_args var_args var_args_keywords : MethodFlags

pub data EntryPoint : Type 0 where
  positional method own : EntryPoint
  keywords : (func : ℕ) → EntryPoint

pub record MethodDef : Type 0 where
  pub ml_name : Bytes
  pub ml_meth : EntryPoint
  pub ml_flags : MethodFlags

-- def<Getter, Func>(name, doc), and what the one with keyword arguments returns.
abbrev pub positional_def : Bytes → MethodDef
positional_def name = record { ml_name = name; ml_meth = positional; ml_flags = var_args }

abbrev pub keyword_def : ℕ → Bytes → MethodDef
keyword_def func name = record {
  ml_name = name;
  ml_meth = keywords func;
  ml_flags = var_args_keywords;
}
