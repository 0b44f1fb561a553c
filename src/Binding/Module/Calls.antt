-- ===== src/Binding/Module/Calls.antt =====
-- A call with keyword arguments (call_wrapper_kw of include/sciforge/binding/dispatch.hpp) of a function
-- of a module that an import of include/sciforge/binding/module.hpp has given.
use sciforge.Base.{
  ℕ, ◌≡◌, ◌≢◌, sym, subst, ◌∙◌, Bytes, true, List, [], ◌∷◌, ◌++◌, none, some, inl, inr, length,
  Option-cases,
}
use sciforge.Binding.Python.{Ptr, World, Py, Python, MakesObject}
use sciforge.Binding.Convention.{IsHonest, KeepsConvention, settle}
use sciforge.Binding.Convert.Casters.{Arg, Ret, RetValue}
use sciforge.Binding.Convert.Honest.{ReadsObjects}
use sciforge.Binding.Convert.Results.{MakesResults, HasNoObject}
use sciforge.Binding.Dispatch.{CppFunction, invoke}
use sciforge.Binding.Dispatch.Typed.{
  TypedValue, typed_function, typed_function-FunctionIsHonest, length-typed_arguments,
}
use sciforge.Binding.Keywords.{
  Default, none_default, text, signed, unsigned, floating, or_no_memory, ArgSpec, required,
  defaulted, KwSpec, Parser, call_wrapper_kw, register_spec, empty_spec, release_defaults,
  required_before_optional, default_object, add_args, add_required, add_defaulted, start_optional,
}
use sciforge.Binding.Keywords.Specs.{new_defaults, add_args-defaults, claim_fresh}
use sciforge.Binding.Keywords.Claims.{MakesDefaults}
use sciforge.Binding.Keywords.KeywordCalls.{
  ParsesArguments, DefaultsMade, Chosen, call_wrapper_kw-KeepsConvention, call_wrapper_kw_completes,
}
use sciforge.Binding.Module.{Importer, Statics, Statement, def_kw, py_init}
use sciforge.Binding.Module.Defaults.{add_args-ErrorStays}
use sciforge.Binding.Module.Errors.{IsDocumented}
use sciforge.Binding.Module.Called.{py_init-HasSpec}

module _ (P : Python) (makes : MakesDefaults P) where
  missing-sets_error :
      (make : World → Ptr × World) (w : World)
      → MakesObject make
      → (or_no_memory (make w)).0 ≡ none
      → (or_no_memory (make w)).1.error ≢ none
  missing-sets_error make w m missing = elim (m w) [
    | inl (o, made) ↦ cc
    | inr (e, failed) ↦ rw failed cc
  ]

  default_object-sets_error :
      (value : Default) (w : World)
      → (default_object P value w).0 ≡ none
      → (default_object P value w).1.error ≢ none
  unfolding default_object
  default_object-sets_error none_default w missing = cc
  default_object-sets_error (text t) w missing =
      missing-sets_error (P.unicode_from_string t) w (makes.unicode t) missing
  default_object-sets_error (signed n) w missing =
      missing-sets_error (P.long_from_long_long n) w (makes.long n) missing
  default_object-sets_error (unsigned n) w missing =
      missing-sets_error (P.long_from_unsigned n) w (makes.unsigned_long n) missing
  default_object-sets_error (floating d) w missing =
      missing-sets_error (P.float_from_double d) w (makes.float d) missing

  -- Without an error every default has been made.
  new_defaults-DefaultsMade :
      (args : List ArgSpec) (spec : KwSpec) (w : World)
      → (add_args P args (spec, w)).1.error ≡ none
      → DefaultsMade args (new_defaults P args w)
  unfolding new_defaults add_args
  new_defaults-DefaultsMade [] spec w clean = tt
  new_defaults-DefaultsMade (required name ∷ args) spec w clean =
      new_defaults-DefaultsMade args (add_required name spec) w clean
  new_defaults-DefaultsMade (defaulted name value ∷ args) spec w clean =
      let (object, v) = default_object P value w in
      let next = add_defaulted name object (start_optional spec) in
      let rest = new_defaults-DefaultsMade args next v clean in
      elim (Option-cases object) [
        | inl missing ↦ absurd (
            add_args-ErrorStays P makes args next v (default_object-sets_error value w missing)
              clean)
        | inr (o, made) ↦ rw made rest
      ]

  registered-DefaultsMade :
      (registration_epoch : ℕ) (name : Bytes) (args : List ArgSpec) (spec : KwSpec) (w : World)
      → spec.epoch ≢ registration_epoch
      → (register_spec P registration_epoch name args spec w).1.error ≡ none
      → DefaultsMade args (register_spec P registration_epoch name args spec w).0.defaults
  unfolding register_spec
  registered-DefaultsMade registration_epoch name args spec w fresh =
      let start = record empty_spec { epoch = registration_epoch } in
      let v = release_defaults spec.defaults w in
      rw (claim_fresh registration_epoch name spec w fresh, add_args-defaults P args start v)
        λ clean. new_defaults-DefaultsMade args start v clean

-- A call runs the function on one object for each parameter, the one given or else the default, and
-- settles what that ends in.
abbrev pub Invokes :
    {V Call : Type 0}
    → Python
    → Parser Call
    → List ArgSpec
    → Ptr
    → CppFunction V
    → Call
    → World
    → List Ptr
    → World
    → KwSpec
    → Type 0
Invokes P parse args error_type fn call v objs v' spec =
    (os : List ℕ) × (call_wrapper_kw P parse error_type fn spec call v
      ≡ settle error_type (invoke P fn os v'))
    × (length os ≡ length args)
    × Chosen objs spec.defaults os

module _ {Call : Type 0} (I : Importer) (documented : IsDocumented I) (P : Python)
    (makes : MakesDefaults P) (parse : Parser Call) (parses : ParsesArguments parse)
    (error_name : Bytes) (f : ℕ) (name : Bytes) (args : List ArgSpec) (pre post : List Statement)
    (st : Statics) (w : World) (m : ℕ) (st' : Statics) (w' : World)
    (given : py_init I P error_name (pre ++ def_kw f name args ∷ post) st w ≡ (some m, (st', w')))
    (ordered : required_before_optional args ≡ true) where
  -- Where an import gives a module whose body registers a function with keyword arguments, the required
  -- ones first, a call of it with the spec that the import has left keeps CPython's convention: it gives a null
  -- pointer exactly when it leaves an error set. The function has any types that have a caster, one
  -- parameter for each argument (which def asserts), and no PyObject* in its result; it is called with no error set; its body throws error_already_set only
  -- where an error is set, and leaves none where it returns; CPython's calls and its argument parser do
  -- what it documents of them.
  pub py_init-call_wrapper_kw :
      (r : Ret) (cs : List Arg) (body : List (TypedValue r) → Py (RetValue r)) (error_type : Ptr)
      (call : Call) (v : World)
      → ReadsObjects P
      → MakesResults P
      → HasNoObject r
      → ((vs : List (TypedValue r)) → IsHonest (body vs))
      → length args ≡ length cs
      → v.error ≡ none
      → KeepsConvention
          (call_wrapper_kw P parse error_type (typed_function P r cs body) (st'.specs f) call v)
  py_init-call_wrapper_kw r cs body error_type call v reads results pointerless honest as_many
        clean =
      let (before, u, fresh, made, is) =
        py_init-HasSpec I documented P makes f name args error_name pre post st w m st' w' given in
      subst
        (λ spec.
          KeepsConvention
            (call_wrapper_kw P parse error_type (typed_function P r cs body) spec call v))
        (sym is)
        (call_wrapper_kw-KeepsConvention P parse st'.epoch name args before u error_type
          (typed_function P r cs body) call v parses fresh ordered
          (typed_function-FunctionIsHonest P r reads results cs body pointerless honest)
          (as_many ∙ sym (length-typed_arguments P r cs)) clean)

  -- Where an import gives a module whose body registers a function with keyword arguments, the required
  -- ones first, a call of it that the argument parser accepts runs the function on one object for each
  -- parameter, which is the one given or else the default that the import has made: no default is
  -- missing. What the function gives or throws becomes the call's answer. The call is made with no
  -- error set; CPython's calls and its argument parser do what it documents of them.
  pub py_init-Invokes :
      {V : Type 0} (error_type : Ptr) (fn : CppFunction V) (call : Call) (v : World)
      (objs : List Ptr) (v' : World)
      → v.error ≡ none
      → parse (st'.specs f).format (st'.specs f).kwlist call v ≡ (some objs, v')
      → Invokes P parse args error_type fn call v objs v' (st'.specs f)
  py_init-Invokes error_type fn call v objs v' clean =
      let (before, u, fresh, made, is) =
        py_init-HasSpec I documented P makes f name args error_name pre post st w m st' w' given in
      subst
        (λ spec.
          parse spec.format spec.kwlist call v ≡ (some objs, v')
          → Invokes P parse args error_type fn call v objs v' spec)
        (sym is)
        (call_wrapper_kw_completes P parse st'.epoch name args before u error_type fn call v objs v'
          parses fresh ordered
          (registered-DefaultsMade P makes st'.epoch name args before u fresh made) clean)
