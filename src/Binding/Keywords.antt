-- ===== src/Binding/Keywords.antt =====
-- include/sciforge/binding/dispatch.hpp, the keyword and optional arguments: arg, kw_spec,
-- claim_kw_spec, add_arg, required_before_optional, default_object, call_wrapper_kw and the keyword def.
pub mod Specs
pub mod Claims
pub mod KeywordCalls
use sciforge.Base.{
  ℕ, zero, suc, Bytes, codes, Bool, true, false, not, ◌&&◌, ◌||◌, List, [], ◌∷◌, ◌++◌, Option, none,
  some, ◌==◌, if◌then◌else◌, length,
}
use sciforge.Base.Int.{ℤ}
use sciforge.Binding.Python.{
  Ptr, PyError, World, Py, Double, Python, system_error, memory_error, set_error, xdecref,
}
use sciforge.Binding.Convention.{settle}
use sciforge.Binding.Dispatch.{CppFunction, arity, invoke}

-- The value of `arg("x") = value`: binding::none, a literal text, an integer by its
-- signedness, or a floating-point number.
pub data Default : Type 0 where
  none_default : Default
  text : Bytes → Default
  signed : ℤ → Default
  unsigned : ℕ → Default
  floating : Double → Default

-- arg("x"), and arg("x") = value.
pub data ArgSpec : Type 0 where
  required : Bytes → ArgSpec
  defaulted : Bytes → Default → ArgSpec

-- struct kw_spec; the NULL that ends the kwlist is `none`.
pub record KwSpec : Type 0 where
  pub kwlist : List (Option Bytes)
  pub format : Bytes
  pub defaults : List Ptr
  pub optional_started : Bool
  pub epoch : ℕ

abbrev pub empty_spec : KwSpec
empty_spec = record { kwlist = []; format = []; defaults = []; optional_started = false; epoch = 0 }

-- PyErr_NoMemory.
abbrev pub no_memory : World → Ptr × World
no_memory w = (none, set_error memory_error w)

abbrev pub or_no_memory : Ptr × World → Ptr × World
or_no_memory (none, w) = no_memory w
or_no_memory (some o, w) = (some o, w)

unfoldable pub default_object : Python → Default → World → Ptr × World
default_object P none_default w = (some P.none_object, record w { owned = P.none_object ∷ w.owned })
default_object P (text value) w = or_no_memory (P.unicode_from_string value w)
default_object P (signed value) w = or_no_memory (P.long_from_long_long value w)
default_object P (unsigned value) w = or_no_memory (P.long_from_unsigned value w)
default_object P (floating value) w = or_no_memory (P.float_from_double value w)

-- `for (PyObject* owned : spec.defaults) Py_XDECREF(owned);`.
unfoldable pub release_defaults : List Ptr → World → World
release_defaults [] w = w
release_defaults (p ∷ ps) w = release_defaults ps (xdecref p w)

abbrev pub claim_message : Bytes → Bytes
claim_message name =
    name ++ codes ": a function registered with keyword arguments takes one registration per module"

-- claim_kw_spec, in the import that `registration_epoch` counts.
unfoldable pub claim_kw_spec : ℕ → Bytes → KwSpec → World → Bool × KwSpec × World
unfolding release_defaults
claim_kw_spec registration_epoch name spec w =
    if not (spec.epoch == 0) && (spec.epoch == registration_epoch)
    then (false, spec, set_error (system_error (claim_message name)) w)
    else (true, record empty_spec { epoch = registration_epoch }, release_defaults spec.defaults w)

abbrev pub is_defaulted : ArgSpec → Bool
is_defaulted (required name) = false
is_defaulted (defaulted name value) = true

-- The loop of required_before_optional.
unfoldable pub required_loop : Bool → List ArgSpec → Bool
required_loop seen_optional [] = true
required_loop seen_optional (d ∷ ds) =
    let rest = required_loop (seen_optional || is_defaulted d) ds in
    if not (is_defaulted d) && seen_optional then false else rest

unfoldable pub required_before_optional : List ArgSpec → Bool
unfolding required_loop
required_before_optional specs = required_loop false specs

abbrev pub add_required : Bytes → KwSpec → KwSpec
add_required name spec = record spec {
  kwlist = spec.kwlist ++ some name ∷ [];
  format = spec.format ++ b'O' ∷ [];
  defaults = spec.defaults ++ none ∷ [];
}

abbrev pub start_optional : KwSpec → KwSpec
start_optional spec =
    if spec.optional_started
    then spec
    else record spec { format = spec.format ++ b'|' ∷ []; optional_started = true }

abbrev pub add_defaulted : Bytes → Ptr → KwSpec → KwSpec
add_defaulted name object spec = record spec {
  kwlist = spec.kwlist ++ some name ∷ [];
  format = spec.format ++ b'O' ∷ [];
  defaults = spec.defaults ++ object ∷ [];
}

-- The two overloads of add_arg.
unfoldable pub add_arg : Python → ArgSpec → KwSpec × World → KwSpec × World
unfolding default_object
add_arg P (required name) (spec, w) = (add_required name spec, w)
add_arg P (defaulted name value) (spec, w) =
    let (object, w') = default_object P value w in
    (add_defaulted name object (start_optional spec), w')

unfoldable pub add_args : Python → List ArgSpec → KwSpec × World → KwSpec × World
unfolding add_arg
add_args P [] s = s
add_args P (a ∷ as_) s = add_args P as_ (add_arg P a s)

-- The NULL behind the names, and `:name` behind the format.
abbrev pub close_spec : Bytes → KwSpec → KwSpec
close_spec name spec = record spec {
  kwlist = spec.kwlist ++ none ∷ [];
  format = spec.format ++ b':' ∷ name;
}

abbrev pub filled_spec : Python → Bytes → List ArgSpec → Bool × KwSpec × World → KwSpec × World
filled_spec P name specs (false, spec, w) = (spec, w)
filled_spec P name specs (true, spec, w) =
    let (spec', w') = add_args P specs (spec, w) in (close_spec name spec', w')

-- What the keyword def does to the function's spec.
unfoldable pub register_spec : Python → ℕ → Bytes → List ArgSpec → KwSpec → World → KwSpec × World
register_spec P registration_epoch name specs spec w =
    filled_spec P name specs (claim_kw_spec registration_epoch name spec w)

-- `kw_spec_for<Func>()`: one spec for each function, which a number stands for.
abbrev pub SpecStore : Type 0
SpecStore = ℕ → KwSpec

abbrev pub store_spec : ℕ → KwSpec → SpecStore → SpecStore
store_spec func spec specs other = if other == func then spec else specs other

-- A registration of the function `func` in the store.
unfoldable pub register_func :
    Python → ℕ → ℕ → Bytes → List ArgSpec → SpecStore → World → SpecStore × World
unfolding register_spec
register_func P registration_epoch func name args specs w =
    let (spec, w') = register_spec P registration_epoch name args (specs func) w in
    (store_spec func spec specs, w')

-- The loop over `objs` in call_wrapper_kw: an absent argument takes its stored default. `past_end` is
-- a read of spec.defaults behind its last element.
pub data Filled : Type 0 where
  filled : List ℕ → Filled
  default_missing : Filled
  past_end : Filled

abbrev pub push_filled : ℕ → Filled → Filled
push_filled o (filled objs) = filled (o ∷ objs)
push_filled o default_missing = default_missing
push_filled o past_end = past_end

unfoldable pub fill_defaults : List Ptr → List Ptr → Filled
fill_defaults [] defaults = filled []
fill_defaults (some o ∷ objs) [] = push_filled o (fill_defaults objs [])
fill_defaults (none ∷ objs) [] = past_end
fill_defaults (some o ∷ objs) (d ∷ ds) = push_filled o (fill_defaults objs ds)
fill_defaults (none ∷ objs) (none ∷ ds) = default_missing
fill_defaults (none ∷ objs) (some d ∷ ds) = push_filled d (fill_defaults objs ds)

-- PyArg_ParseTupleAndKeywords over the spec: the pointers that it fills in, or `none` where it has
-- refused the call with an error set. `Call` is the argument tuple with the keyword dictionary.
abbrev pub Parser : Type 0 → Type 0
Parser Call = Bytes → List (Option Bytes) → Call → World → Option (List Ptr) × World

-- detail::parse_kw, which hands its arguments on.
abbrev pub parse_kw : {Call : Type 0} → Parser Call → Parser Call
parse_kw parse format kwlist call w = parse format kwlist call w

-- C++ says nothing of a read behind the end; a null pointer with no error stands for it, which no
-- entry point may give.
module _ {V Call : Type 0} (P : Python) (parse : Parser Call) where
  -- detail::invoke_objs: the objects of an array, all there.
  abbrev invoke_objs : CppFunction V → List ℕ → Py Ptr
  invoke_objs f objs = invoke P f objs

  abbrev pub call_filled : Ptr → CppFunction V → Filled → World → Ptr × World
  call_filled error_type f (filled objs) w = settle error_type (invoke_objs f objs w)
  call_filled error_type f default_missing w = no_memory w
  call_filled error_type f past_end w = (none, w)

  abbrev pub call_parsed : Ptr → CppFunction V → KwSpec → Option (List Ptr) × World → Ptr × World
  call_parsed error_type f spec (none, w) = (none, w)
  call_parsed error_type f spec (some objs, w) =
      call_filled error_type f (fill_defaults objs spec.defaults) w

  unfoldable pub call_wrapper_kw : Ptr → CppFunction V → KwSpec → Call → World → Ptr × World
  unfolding fill_defaults
  call_wrapper_kw error_type f spec call w =
      call_parsed error_type f spec (parse_kw parse spec.format spec.kwlist call w)
