-- ===== src/Binding/Dispatch/Typed.antt =====
-- Functions of include/sciforge/binding/dispatch.hpp over the types that
-- include/sciforge/binding/convert.hpp converts: the entry point with the casters that it picks.
use sciforge.Base.{
  ℕ, suc, ap, arith, ◌∙◌, refl, ◌⊎◌, inl, inr, ◌==◌, ==_iff, Bool-cases, length, Bytes, ◌≡◌, List,
  [], ◌∷◌, map, none, some, All,
}
use sciforge.Cpp.{non_standard}
use sciforge.Binding.Python.{Ptr, World, Py, pure, raise, ◌>>=◌, Python, type_error, set_error}
use sciforge.Binding.Convention.{IsHonest, IsHonestPtr, KeepsConvention, >>=-IsHonest}
use sciforge.Binding.Convert.Casters.{Arg, ArgValue, Ret, RetValue, from_python, to_python}
use sciforge.Binding.Convert.Honest.{ReadsObjects, from_python-IsHonest}
use sciforge.Binding.Convert.Results.{MakesResults, HasNoObject, to_python-Converts}
use sciforge.Binding.Dispatch.{CppFunction, call_wrapper}
use sciforge.Binding.Dispatch.Calls.{
  FunctionIsHonest, call_wrapper-KeepsConvention, call_wrapper_wrong_count,
}

-- The C++ values of a function with the result type `r`: an argument of any type, or the result.
pub data TypedValue (r : Ret) : Type 0 where
  argument : (c : Arg) → ArgValue c → TypedValue r
  result : RetValue r → TypedValue r

module _ (P : Python) (r : Ret) where
  abbrev pub typed_argument : Arg → ℕ → Py (TypedValue r)
  typed_argument c o = from_python P c o >>= λ v. pure (argument c v)

  -- An argument is never the result.
  abbrev pub typed_result : TypedValue r → Py Ptr
  typed_result (argument c v) = raise non_standard
  typed_result (result v) = to_python P r v

  -- The function of the type r(cs...), with the body over its converted arguments.
  abbrev pub typed_function :
      List Arg → (List (TypedValue r) → Py (RetValue r)) → CppFunction (TypedValue r)
  typed_function cs body = record {
    casters = map typed_argument cs;
    body = λ vs. body vs >>= λ v. pure (result v);
    to_python = some typed_result;
  }

  pub length-typed_arguments : (cs : List Arg) → length (map typed_argument cs) ≡ length cs
  length-typed_arguments [] = refl
  length-typed_arguments (c ∷ cs) = ap suc (length-typed_arguments cs)

  module _ (reads : ReadsObjects P) (makes : MakesResults P) where
    typed_arguments-IsHonest :
        (cs : List Arg) → All (λ c. (o : ℕ) → IsHonest (c o)) (map typed_argument cs)
    typed_arguments-IsHonest [] = tt
    typed_arguments-IsHonest (c ∷ cs) = (
      (λ o. >>=-IsHonest (from_python P c o) _ (from_python-IsHonest P reads c o) (λ v w e. e)),
      typed_arguments-IsHonest cs,
    )

    typed_result-IsHonestPtr : HasNoObject r → (v : TypedValue r) → IsHonestPtr (typed_result v)
    typed_result-IsHonestPtr h (argument c v) w e = tt
    typed_result-IsHonestPtr h (result v) w e = (to_python-Converts P makes r v h).0 w e

    pub typed_function-FunctionIsHonest :
        (cs : List Arg) (body : List (TypedValue r) → Py (RetValue r))
        → HasNoObject r
        → ((vs : List (TypedValue r)) → IsHonest (body vs))
        → FunctionIsHonest (typed_function cs body)
    typed_function-FunctionIsHonest cs body pointerless honest = (
      typed_arguments-IsHonest cs,
      (λ vs. >>=-IsHonest (body vs) _ (honest vs) (λ v w' e. e)),
      typed_result-IsHonestPtr pointerless,
    )

    -- The entry point of a function of any number of parameters, of any types that have a caster, and of
    -- any result type that has one and no PyObject* in it, gives a null pointer exactly when it leaves an
    -- error set, however many arguments of whatever types it is called with. With another number of
    -- arguments than parameters it calls nothing, and sets a TypeError. It is called with no error set;
    -- the body throws error_already_set only where an error is set, and leaves none where it
    -- returns; CPython's calls do what it documents of them.
    pub call_wrapper-typed_function :
        (cs : List Arg) (body : List (TypedValue r) → Py (RetValue r)) (error_type : Ptr)
        (args : List ℕ) (w : World)
        → HasNoObject r
        → ((vs : List (TypedValue r)) → IsHonest (body vs))
        → w.error ≡ none
        → let called = call_wrapper P error_type (typed_function cs body) args w in
          KeepsConvention called
          × ((length args ≡ length cs)
              ⊎ ((what : Bytes) × (called ≡ (none, set_error (type_error what) w))))
    call_wrapper-typed_function cs body error_type args w pointerless honest clean = (
      call_wrapper-KeepsConvention P error_type (typed_function cs body) args w
          (typed_function-FunctionIsHonest cs body pointerless honest) clean,
      elim (Bool-cases (length args == length cs)) [
        | inl right ↦ inl ((==_iff (length args) (length cs)).0 right)
        | inr wrong ↦ inr (
          _,
          call_wrapper_wrong_count P error_type (typed_function cs body) args w
              λ same. ground (arith, wrong, same ∙ length-typed_arguments cs),
        )
      ],
    )
