-- ===== src/Binding/Tests.antt =====
-- The binding of include/sciforge/binding over a small interpreter.
use sciforge.Base.{
  ℕ, ◌≡◌, ◌⊎◌, refl, codes, true, List, [], ◌∷◌, ◌++◌, map, none, some, arith, inl, inr, length,
  replicate, ◌==◌, if◌then◌else◌, Bool-cases,
}
use sciforge.Base.Int.{pos}
use sciforge.Base.Decimal.{print_nat}
use sciforge.Cpp.{ok, throw, std_exception}
use sciforge.Binding.Python.{Ptr, type_error, system_error, python_error, Py, set_error}
use sciforge.Binding.Convention.{KeepsConvention, settle}
use sciforge.Binding.Convert.{i8, out_of_range, int_from_python, vector_to_python, tuple_to_python}
use sciforge.Binding.Convert.Integers.{InRange, int_from_python_exact}
use sciforge.Binding.Convert.Containers.{
  Balanced, IsBalanced, vector_to_python-Balanced, tuple_to_python-Balanced,
}
use sciforge.Binding.Dispatch.{invoke, call_wrapper}
use sciforge.Binding.Dispatch.Calls.{call_wrapper-KeepsConvention, call_wrapper_wrong_count}
use sciforge.Binding.Keywords.{
  register_spec, required_before_optional, required_loop, call_wrapper_kw, claim_message,
  claim_kw_spec, add_args, add_arg, default_object,
}
use sciforge.Binding.Keywords.Specs.{
  name_of, count_required, count_defaulted, optional_part, DefaultsFit, register_spec_fits,
}
use sciforge.Binding.Keywords.Claims.{
  Ledger, count, count_ptrs, register_spec-Ledger, register_spec_twice,
}
use sciforge.Binding.Keywords.KeywordCalls.{
  DefaultsMade, Chosen, call_wrapper_kw-KeepsConvention, call_wrapper_kw_completes,
}
use sciforge.Binding.Fixtures.{
  value_at, interpreter, idle, interpreter-ReadsLongs, new_object-MakesObject,
  interpreter-MakesDefaults, first, first-FunctionIsHonest, parameters, old_spec, parser,
  parser-ParsesArguments,
}

-- 300 as an int8_t.
int_from_python_exact_example :
    let r = int_from_python interpreter i8 1300 idle in
    (InRange i8 (pos 300) × (r ≡ (ok (pos 300), idle)))
    ⊎ ((¬ (InRange i8 (pos 300))) × (r ≡ (throw out_of_range, idle)))
int_from_python_exact_example =
    int_from_python_exact interpreter value_at interpreter-ReadsLongs i8 1300 idle refl refl

-- An element's caster that throws at 3 and fails at 2.
abbrev picky : ℕ → Py Ptr
picky n w =
    if n == 3
    then (throw (std_exception (codes "three")), w)
    else if n == 2
    then (ok none, set_error (python_error 2) w)
    else (ok (some n), record w { owned = n ∷ w.owned })

picky-IsBalanced : (n : ℕ) → IsBalanced (picky n)
picky-IsBalanced n w = elim (Bool-cases (n == 3)) [
  | inl three ↦ rw three refl
  | inr other ↦ elim (Bool-cases (n == 2)) [
    | inl two ↦ rw (other, two) refl
    | inr none_of_them ↦ rw (other, none_of_them) refl
  ]
]

vector_to_python-Balanced_test :
    Balanced (9 ∷ []) (vector_to_python interpreter picky (7 ∷ 8 ∷ 3 ∷ []) idle)
vector_to_python-Balanced_test =
    vector_to_python-Balanced interpreter picky (7 ∷ 8 ∷ 3 ∷ []) idle
      (λ n. new_object-MakesObject 5) picky-IsBalanced

tuple_to_python-Balanced_test :
    Balanced (9 ∷ []) (tuple_to_python interpreter (picky 7 ∷ picky 2 ∷ []) idle)
tuple_to_python-Balanced_test =
    tuple_to_python-Balanced interpreter (picky 7 ∷ picky 2 ∷ []) idle
      (λ n. new_object-MakesObject 6) (picky-IsBalanced 7, (picky-IsBalanced 2, tt))

call_wrapper-KeepsConvention_test :
    KeepsConvention (call_wrapper interpreter (some 50) first (1 ∷ 8 ∷ []) idle)
call_wrapper-KeepsConvention_test =
    call_wrapper-KeepsConvention interpreter (some 50) first (1 ∷ 8 ∷ []) idle
      first-FunctionIsHonest refl

call_wrapper_wrong_count_test : call_wrapper interpreter (some 50) first (1 ∷ []) idle ≡ (
  none,
  set_error
      (type_error
        (codes "expected " ++ (print_nat 2 ++ (codes " argument(s), got " ++ print_nat 1))))
      idle,
)
call_wrapper_wrong_count_test =
    call_wrapper_wrong_count interpreter (some 50) first (1 ∷ []) idle (λ e. omega (arith, e))

register_spec_fits_test :
    let spec' = (register_spec interpreter 2 (codes "f") parameters old_spec idle).0 in
    (spec'.format
      ≡ replicate (count_required parameters) b'O'
        ++ (optional_part (count_defaulted parameters) ++ b':' ∷ codes "f"))
    × (spec'.kwlist ≡ map (λ a. some (name_of a)) parameters ++ none ∷ [])
    × DefaultsFit parameters spec'.defaults
    × (spec'.epoch ≡ 2)
register_spec_fits_test =
    register_spec_fits interpreter 2 (codes "f") parameters old_spec idle (λ e. omega (arith, e))
      (unfold required_before_optional required_loop in refl)

register_spec-Ledger_example :
    let (spec', w') = register_spec interpreter 2 (codes "f") parameters old_spec idle in
    Ledger (λ o. 0) spec' w'
register_spec-Ledger_example =
    register_spec-Ledger interpreter interpreter-MakesDefaults (λ o. 0) 2 (codes "f") parameters
      old_spec idle (λ o. unfold count count_ptrs in omega arith)

register_spec_twice_test :
    let (registered, w') = register_spec interpreter 2 (codes "f") parameters old_spec idle in
    register_spec interpreter 2 (codes "g") [] registered w'
    ≡ (registered, set_error (system_error (claim_message (codes "g"))) w')
register_spec_twice_test =
    register_spec_twice interpreter 2 (codes "f") (codes "g") parameters [] old_spec idle
      (λ e. omega (arith, e)) (λ e. omega (arith, e))

-- The spec that the registration makes: the format `O|O:f`, and a default for `y` alone.
register_spec_test : (register_spec interpreter 2 (codes "f") parameters old_spec idle).0 ≡ record {
  kwlist = some (codes "x") ∷ some (codes "y") ∷ none ∷ [];
  format = codes "O|O:f";
  defaults = none ∷ some 1005 ∷ [];
  optional_started = true;
  epoch = 2;
}
unfolding register_spec claim_kw_spec add_args add_arg default_object
register_spec_test = refl

parameters_made :
    DefaultsMade parameters
      (register_spec interpreter 2 (codes "f") parameters old_spec idle).0.defaults
parameters_made = rw register_spec_test tt

parameters_parsed :
    let spec' = (register_spec interpreter 2 (codes "f") parameters old_spec idle).0 in
    parser spec'.format spec'.kwlist (8 ∷ []) idle ≡ (some (some 8 ∷ none ∷ []), idle)
parameters_parsed = rw register_spec_test refl

call_wrapper_kw_completes_example :
    let spec' = (register_spec interpreter 2 (codes "f") parameters old_spec idle).0 in
    (os : List ℕ) × (call_wrapper_kw interpreter parser (some 50) first spec' (8 ∷ []) idle
      ≡ settle (some 50) (invoke interpreter first os idle))
    × (length os ≡ 2)
    × Chosen (some 8 ∷ none ∷ []) spec'.defaults os
call_wrapper_kw_completes_example =
    call_wrapper_kw_completes interpreter parser 2 (codes "f") parameters old_spec idle (some 50)
      first (8 ∷ []) idle (some 8 ∷ none ∷ []) idle parser-ParsesArguments (λ e. omega (arith, e))
      (unfold required_before_optional required_loop in refl) parameters_made refl parameters_parsed

call_wrapper_kw-KeepsConvention_test : KeepsConvention (
    call_wrapper_kw interpreter parser
      (some 50)
      first
      (register_spec interpreter 2 (codes "f") parameters old_spec idle).0
      (8 ∷ [])
      idle)
call_wrapper_kw-KeepsConvention_test =
    call_wrapper_kw-KeepsConvention interpreter parser 2 (codes "f") parameters old_spec idle
      (some 50) first (8 ∷ []) idle parser-ParsesArguments (λ e. omega (arith, e))
      (unfold required_before_optional required_loop in refl) first-FunctionIsHonest refl refl
