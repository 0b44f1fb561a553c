-- ===== src/Binding/Convert/Tests.antt =====
-- The casters of include/sciforge/binding/convert.hpp over the small interpreter.
use sciforge.Base.{ℕ, none, Bytes, ◌≡◌, ◌⊎◌, refl, codes, [], ◌∷◌, List, some, length}
use sciforge.Base.Int.{ℤ, pos, negsuc}
use sciforge.Cpp.{bad_alloc}
use sciforge.Binding.Python.{Py, pure, raise, set_error, type_error}
use sciforge.Binding.Convention.{IsHonest, KeepsConvention}
use sciforge.Binding.Convert.{i64, u8}
use sciforge.Binding.Convert.Casters.{
  Arg, optional, from_python, Ret, vector, tuple, no_more, and_one, to_python,
}
use sciforge.Binding.Convert.Honest.{from_python-IsHonest}
use sciforge.Binding.Convert.Results.{Converts, to_python-Converts}
use sciforge.Binding.Dispatch.{call_wrapper}
use sciforge.Binding.Dispatch.Typed.{TypedValue, typed_function, call_wrapper-typed_function}
use sciforge.Binding.Fixtures.Documented.{interpreter-ReadsObjects, interpreter-MakesResults}
use sciforge.Binding.Fixtures.{interpreter, idle}

from_python-IsHonest_example : IsHonest (from_python interpreter (optional (Arg.integer u8)) 1300)
from_python-IsHonest_example =
    from_python-IsHonest interpreter interpreter-ReadsObjects (optional (Arg.integer u8)) 1300

-- A tuple of a number and a list of texts.
abbrev pair : Ret
pair = tuple (and_one (Ret.integer i64) (and_one (vector Ret.string) no_more))

to_python-Converts_example :
    Converts (to_python interpreter pair (negsuc 6, ((codes "a" ∷ codes "b" ∷ []), tt)))
to_python-Converts_example =
    to_python-Converts interpreter interpreter-MakesResults pair
      (negsuc 6, ((codes "a" ∷ codes "b" ∷ []), tt)) (tt, (tt, tt))

-- u8(u8, i64), which counts its arguments and throws where it has none.
abbrev counted : List (TypedValue (Ret.integer u8)) → Py ℤ
counted [] = raise bad_alloc
counted (v ∷ vs) = pure (pos (length (v ∷ vs)))

counted-IsHonest : (vs : List (TypedValue (Ret.integer u8))) → IsHonest (counted vs)
counted-IsHonest [] w clean = tt
counted-IsHonest (v ∷ vs) w clean = clean

call_wrapper-typed_function_example :
    let called =
      call_wrapper interpreter
        (some 50)
        (typed_function interpreter
          (Ret.integer u8)
          (Arg.integer u8 ∷ Arg.integer i64 ∷ [])
          counted)
        (1200 ∷ 1300 ∷ [])
        idle in
    KeepsConvention called
    × ((length {A = ℕ} (1200 ∷ 1300 ∷ []) ≡ 2)
        ⊎ ((what : Bytes) × (called ≡ (none, set_error (type_error what) idle))))
call_wrapper-typed_function_example =
    call_wrapper-typed_function interpreter (Ret.integer u8) interpreter-ReadsObjects
      interpreter-MakesResults (Arg.integer u8 ∷ Arg.integer i64 ∷ []) counted (some 50)
      (1200 ∷ 1300 ∷ []) idle tt counted-IsHonest refl
