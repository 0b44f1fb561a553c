-- ===== src/Binding/Dispatch/Calls.antt =====
-- What a positional call of include/sciforge/binding/dispatch.hpp gives back.
use sciforge.Base.{
  ℕ, ◌≡◌, ◌≢◌, refl, codes, List, [], ◌∷◌, ◌++◌, Option, none, some, All, ◌==◌, Bool-cases, ==_ne,
  ==_iff, arith, inl, inr, length,
}
use sciforge.Base.Decimal.{print_nat}
use sciforge.Binding.Python.{Ptr, World, Py, Python, type_error, set_error}
use sciforge.Binding.Error.{translate}
use sciforge.Binding.Convention.{
  IsHonest, IsHonestPtr, KeepsConvention, settle-KeepsConvention, >>=-IsHonest, >>=-IsHonestPtr,
}
use sciforge.Binding.Dispatch.{
  CppFunction, arity, extract, invoke, checked_call, call_wrapper, return_value,
}

abbrev pub HonestReturn : {V : Type 0} → Option (V → Py Ptr) → Type 0
HonestReturn none = Unit
HonestReturn {V} (some to_python) = (v : V) → IsHonestPtr (to_python v)

-- The casters, the body and the return of a function keep to Python's rules for errors.
abbrev pub FunctionIsHonest : {V : Type 0} → CppFunction V → Type 0
FunctionIsHonest {V} f =
    All (λ c. (o : ℕ) → IsHonest (c o)) f.casters
    × ((vs : List V) → IsHonest (f.body vs))
    × HonestReturn f.to_python

module _ {V : Type 0} (P : Python) where
  pub extract-IsHonest :
      (cs : List (ℕ → Py V)) (objs : List ℕ)
      → All (λ c. (o : ℕ) → IsHonest (c o)) cs
      → length objs ≡ length cs
      → IsHonest (extract cs objs)
  unfolding extract
  extract-IsHonest [] objs h l w e = e
  extract-IsHonest (c ∷ cs) [] h l w e = absurd (omega (arith, l))
  extract-IsHonest (c ∷ cs) (o ∷ objs) h l w e =
      >>=-IsHonest (c o) _ (h.0 o)
        (λ v.
          >>=-IsHonest (extract cs objs) _ (extract-IsHonest cs objs h.1 (omega (arith, l)))
            λ vs w' e'. e')
        w e

  return_value-IsHonest :
      (r : Option (V → Py Ptr)) (v : V) → HonestReturn r → IsHonestPtr (return_value P r v)
  return_value-IsHonest none v h w e = e
  return_value-IsHonest (some to_python) v h w e = h v w e

  pub invoke-IsHonest :
      (f : CppFunction V) (objs : List ℕ)
      → FunctionIsHonest f
      → length objs ≡ arity f
      → IsHonestPtr (invoke P f objs)
  unfolding invoke
  invoke-IsHonest f objs h l =
      >>=-IsHonestPtr (extract f.casters objs) _ (extract-IsHonest f.casters objs h.0 l)
        λ vs. >>=-IsHonestPtr (f.body vs) _ (h.1 vs) λ v. return_value-IsHonest f.to_python v h.2

  checked_call-IsHonest :
      (f : CppFunction V) (args : List ℕ) → FunctionIsHonest f → IsHonestPtr (checked_call P f args)
  checked_call-IsHonest f args h w e = elim (Bool-cases (length args == arity f)) [
    | inl right ↦ rw right (invoke-IsHonest f args h ((==_iff (length args) (arity f)).0 right) w e)
    | inr wrong ↦ rw wrong tt
  ]

  -- Called with no error pending, on a function that keeps to Python's rules, the generated entry
  -- point gives a null pointer exactly when it leaves an error set; no C++ exception escapes it.
  pub call_wrapper-KeepsConvention :
      (error_type : Ptr) (f : CppFunction V) (args : List ℕ) (w : World)
      → FunctionIsHonest f
      → w.error ≡ none
      → KeepsConvention (call_wrapper P error_type f args w)
  unfolding call_wrapper
  call_wrapper-KeepsConvention error_type f args w h e =
      settle-KeepsConvention error_type (checked_call P f args w).0 (checked_call P f args w).1
        (checked_call-IsHonest f args h w e)

  -- A call with another number of arguments than the function has parameters calls nothing: it gives a
  -- null pointer and a TypeError that names both numbers.
  pub call_wrapper_wrong_count :
      (error_type : Ptr) (f : CppFunction V) (args : List ℕ) (w : World)
      → length args ≢ arity f
      → call_wrapper P error_type f args w ≡ (
        none,
        set_error
            (type_error (
              codes "expected "
              ++ (print_nat (arity f) ++ (codes " argument(s), got " ++ print_nat (length args)))))
            w,
      )
  unfolding call_wrapper translate
  call_wrapper_wrong_count error_type f args w ne = rw (==_ne (length args) (arity f) ne) refl
