-- ===== src/Binding/Module/CallTests.antt =====
-- A call of a function of the module of examples/binding_consumer/bindingdemo/_demo.cpp, once it is imported.
use sciforge.Base.{ℕ, zero, suc, refl, codes, Bool, List, [], ◌∷◌, ◌++◌, none, some}
use sciforge.Base.Int.{ℤ, pos}
use sciforge.Cpp.{bad_alloc}
use sciforge.Binding.Python.{Py, pure, raise}
use sciforge.Binding.Convention.{IsHonest, KeepsConvention}
use sciforge.Binding.Convert.{i64}
use sciforge.Binding.Convert.Casters.{Arg, Ret}
use sciforge.Binding.Dispatch.Typed.{TypedValue, argument, typed_function}
use sciforge.Binding.Dispatch.{CppFunction}
use sciforge.Binding.Keywords.{
  call_wrapper_kw, required, defaulted, signed, text, none_default, ArgSpec,
}
use sciforge.Binding.Module.{Statement}
use sciforge.Binding.Module.Calls.{Invokes, py_init-call_wrapper_kw, py_init-Invokes}
use sciforge.Binding.Module.Tests.{importer, importer-IsDocumented, untouched, imported}
use sciforge.Binding.Fixtures.{
  interpreter, idle, interpreter-MakesDefaults, parser, parser-ParsesArguments,
}
use sciforge.Binding.Fixtures.Documented.{interpreter-ReadsObjects, interpreter-MakesResults}
use sciforge.Example.Demo.{demo_body, greater_func, raw_functions, plain_functions}
use sciforge.Example.Functions.{greater}

-- greater(x, n = 0), over the values that its casters give.
abbrev number : TypedValue Ret.boolean → ℤ
number (argument (Arg.integer T) n) = n
number v = pos 0

abbrev typed_greater : List (TypedValue Ret.boolean) → Py Bool
typed_greater (x ∷ n ∷ vs) = pure (greater (number x) (number n))
typed_greater vs = raise bad_alloc

typed_greater-IsHonest : (vs : List (TypedValue Ret.boolean)) → IsHonest (typed_greater vs)
typed_greater-IsHonest [] w clean = tt
typed_greater-IsHonest (x ∷ []) w clean = tt
typed_greater-IsHonest (x ∷ n ∷ vs) w clean = clean

abbrev pub behind : ℕ → List Statement → List Statement
behind zero body = body
behind (suc n) [] = []
behind (suc n) (x ∷ body) = behind n body

abbrev greater_args : List ArgSpec
greater_args = required (codes "x") ∷ defaulted (codes "n") (signed (pos 0)) ∷ []

abbrev greater_function : CppFunction (TypedValue Ret.boolean)
greater_function =
    typed_function interpreter Ret.boolean (Arg.integer i64 ∷ Arg.integer i64 ∷ []) typed_greater

-- With an argument too many.
py_init-call_wrapper_kw_example : KeepsConvention (
    call_wrapper_kw interpreter parser
      (some 80)
      greater_function
      (imported.1.0.specs greater_func)
      (1003 ∷ 1004 ∷ 1005 ∷ [])
      idle)
unfolding sciforge.Binding.Keywords.required_before_optional
py_init-call_wrapper_kw_example =
    py_init-call_wrapper_kw importer importer-IsDocumented interpreter interpreter-MakesDefaults
      parser parser-ParsesArguments (codes "m.error") greater_func (codes "greater") greater_args
      (raw_functions ++ plain_functions) (behind 19 demo_body) untouched idle imported.0
      imported.1.0 imported.1.1 imported.2 refl Ret.boolean (Arg.integer i64 ∷ Arg.integer i64 ∷ [])
      typed_greater (some 80) (1003 ∷ 1004 ∷ 1005 ∷ []) idle interpreter-ReadsObjects
      interpreter-MakesResults tt typed_greater-IsHonest refl refl

-- greater(3).
py_init-Invokes_example :
    Invokes interpreter parser greater_args
      (some 80)
      greater_function
      (1003 ∷ [])
      idle
      (some 1003 ∷ none ∷ [])
      idle
      (imported.1.0.specs greater_func)
unfolding imported sciforge.Binding.Keywords.required_before_optional
py_init-Invokes_example =
    py_init-Invokes importer importer-IsDocumented interpreter interpreter-MakesDefaults parser
      parser-ParsesArguments (codes "m.error") greater_func (codes "greater") greater_args
      (raw_functions ++ plain_functions) (behind 19 demo_body) untouched idle imported.0
      imported.1.0 imported.1.1 imported.2 refl (some 80) greater_function (1003 ∷ []) idle
      (some 1003 ∷ none ∷ []) idle refl refl
