-- ===== src/Example/Consumers.antt =====
-- The small consumers: examples/py_consumer/pydemo/_demo.c, examples/dummy_consumer/main.cpp,
-- examples/lint_consumer/include/lintdemo/lintdemo.hpp, and lint/test/probe.cpp, which the linters read.
use sciforge.Base.{ℕ, ◌/◌, ◌^◌, Bytes, codes, true, List, [], ◌∷◌, Option, none, some}
use sciforge.Base.Int.{ℤ, pos}
use sciforge.Binding.Python.{Ptr, World}
use sciforge.Binding.Dispatch.{MethodFlags, no_args}
use sciforge.Harness.Checks.{Place, Real}
use sciforge.Harness.Crash.{Process}
use sciforge.Harness.Runner.{TestCase, Outcome, expect, returns, register, run_all}
use sciforge.Example.Handle.{low_word, to_int}
use Prim.Native.Nat.{bit_and}

-- `demo_answer` of _demo.c, over PyLong_FromLong.
unfoldable pub demo_answer : (ℤ → World → Ptr × World) → World → Ptr × World
demo_answer long_from_long = long_from_long (pos 42)

-- A PyMethodDef: the name, the function, its flag and its text.
pub record DemoMethod : Type 0 where
  pub name : Bytes
  pub method : World → Ptr × World
  pub flags : MethodFlags
  pub doc : Bytes

-- The entries in front of the one that is all zero, and that one.
abbrev pub demo_methods : (ℤ → World → Ptr × World) → List (Option DemoMethod)
demo_methods long_from_long =
    some (record {
      name = codes "answer";
      method = demo_answer long_from_long;
      flags = no_args;
      doc = codes "Return 42.";
    })
    ∷ none
    ∷ []

-- PyInit__demo, over PyModule_Create of a definition with a name and methods.
unfoldable pub py_init_demo :
    (Bytes → List (Option DemoMethod) → World → Ptr × World)
    → (ℤ → World → Ptr × World)
    → World
    → Ptr × World
py_init_demo module_create long_from_long =
    module_create (codes "_demo") (demo_methods long_from_long)

-- main.cpp: its one test, at a place in the file, and `main`, whose test has been registered before.
module _ (R : Real) where
  abbrev pub dummy_test : Place → TestCase R.F
  dummy_test p = record {
    name = codes "dummy_consumes_the_sciforge_harness";
    checks = expect true p (codes "true") ∷ [];
    ending = returns;
  }

  unfoldable pub dummy_main : Place → Process → Outcome
  unfolding register run_all
  dummy_main p = run_all R [] (register (dummy_test p) [])

-- lintdemo.hpp.
abbrev pub lint_answer : ℕ
lint_answer = 0

-- probe.cpp: a null pointer; a shift of an unsigned long; `&` of ints, on their bits; a number.
abbrev pub zero_as_pointer : Ptr
zero_as_pointer = none

abbrev pub shift_by_literal : ℕ → ℕ
shift_by_literal a = a / 2 ^ 32

unfoldable pub signed_and : ℤ → ℤ → ℤ
unfolding to_int
signed_and a b = to_int (pos (bit_and (low_word a) (low_word b)))

abbrev pub magic : ℕ
magic = 42
