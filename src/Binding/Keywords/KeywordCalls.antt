-- ===== src/Binding/Keywords/KeywordCalls.antt =====
-- What a call with keyword arguments of include/sciforge/binding/dispatch.hpp passes on and gives back.
use sciforge.Base.{
  ℕ, zero, suc, ◌+◌, ◌≤◌, ◌≡◌, ◌≢◌, refl, sym, ap, subst, ◌∙◌, Bytes, true, false, List, [], ◌∷◌,
  ◌++◌, Option, none, some, arith, length, replicate,
}
use sciforge.Binding.Python.{Ptr, World, Python}
use sciforge.Binding.Convention.{KeepsConvention, settle, settle-KeepsConvention}
use sciforge.Binding.Dispatch.{CppFunction, arity, invoke}
use sciforge.Binding.Dispatch.Calls.{FunctionIsHonest, invoke-IsHonest}
use sciforge.Binding.Keywords.{
  ArgSpec, required, defaulted, KwSpec, Filled, filled, default_missing, past_end, push_filled,
  fill_defaults, Parser, call_filled, call_parsed, call_wrapper_kw, register_spec,
  required_before_optional, required_loop,
}
use sciforge.Binding.Keywords.Specs.{
  count_required, count_defaulted, optional_part, DefaultsFit, register_spec_fits, letters_started,
}

-- The pointers that a parse of `required` and `optional` objects leaves: none of the first is null.
abbrev pub Parsed : ℕ → ℕ → List Ptr → Type 0
Parsed zero zero [] = Unit
Parsed zero zero (p ∷ ps) = ⊥
Parsed zero (suc k) [] = ⊥
Parsed zero (suc k) (p ∷ ps) = Parsed zero k ps
Parsed (suc r) k [] = ⊥
Parsed (suc r) k (none ∷ ps) = ⊥
Parsed (suc r) k (some o ∷ ps) = Parsed r k ps

abbrev pub ParseEnds : ℕ → ℕ → Option (List Ptr) × World → Type 0
ParseEnds r k (none, w) = w.error ≢ none
ParseEnds r k (some objs, w) = (w.error ≡ none) × Parsed r k objs

-- What CPython documents of PyArg_ParseTupleAndKeywords for a format of `O`s, a bar in front of the
-- optional ones, and the function's name: it fills in the objects, or fails with an error set.
abbrev pub ParsesArguments : {Call : Type 0} → Parser Call → Type 0
ParsesArguments {Call} parse =
    (r k : ℕ) (name : Bytes) (kwlist : List (Option Bytes)) (call : Call) (w : World)
    → w.error ≡ none
    → ParseEnds r k (parse (replicate r b'O' ++ (optional_part k ++ b':' ∷ name)) kwlist call w)

-- Every default was made when the function was registered.
abbrev pub DefaultsMade : List ArgSpec → List Ptr → Type 0
DefaultsMade [] ps = Unit
DefaultsMade (a ∷ specs) [] = ⊥
DefaultsMade (required name ∷ specs) (p ∷ ps) = DefaultsMade specs ps
DefaultsMade (defaulted name value ∷ specs) (none ∷ ps) = ⊥
DefaultsMade (defaulted name value ∷ specs) (some o ∷ ps) = DefaultsMade specs ps

-- Each argument passed on is the one given, or else the stored default.
abbrev pub Chosen : List Ptr → List Ptr → List ℕ → Type 0
Chosen [] ds [] = Unit
Chosen [] ds (x ∷ xs) = ⊥
Chosen (p ∷ ps) ds [] = ⊥
Chosen (p ∷ ps) [] (x ∷ xs) = ⊥
Chosen (some o ∷ ps) (d ∷ ds) (x ∷ xs) = (x ≡ o) × Chosen ps ds xs
Chosen (none ∷ ps) (d ∷ ds) (x ∷ xs) = (some x ≡ d) × Chosen ps ds xs

-- What the loop over the parsed pointers comes to, where no default is missing.
abbrev pub Completes : List ArgSpec → List Ptr → List Ptr → Type 0
Completes specs objs ds =
    (os : List ℕ) × (fill_defaults objs ds ≡ filled os)
    × (length os ≡ length specs)
    × Chosen objs ds os

fill_optional :
    (specs : List ArgSpec) (objs ds : List Ptr)
    → required_loop true specs ≡ true
    → DefaultsFit specs ds
    → DefaultsMade specs ds
    → Parsed 0 (count_defaulted specs) objs
    → Completes specs objs ds
unfolding fill_defaults count_defaulted required_loop
fill_optional [] [] ds h f m p = ([], refl, refl, tt)
fill_optional [] (obj ∷ objs) ds h f m p = absurd p
fill_optional (required name ∷ specs) objs ds h f m p = cc
fill_optional (defaulted name value ∷ specs) [] ds h f m p = absurd p
fill_optional (defaulted name value ∷ specs) (obj ∷ objs) [] h f m p = absurd f
fill_optional (defaulted name value ∷ specs) (obj ∷ objs) (none ∷ ds) h f m p = absurd m
fill_optional (defaulted name value ∷ specs) (some o ∷ objs) (some d ∷ ds) h f m p =
    let (os, e, l, c) = fill_optional specs objs ds h f m p in (o ∷ os, rw e, ap suc l, (refl, c))
fill_optional (defaulted name value ∷ specs) (none ∷ objs) (some d ∷ ds) h f m p =
    let (os, e, l, c) = fill_optional specs objs ds h f m p in (d ∷ os, rw e, ap suc l, (refl, c))

fill_ordered :
    (specs : List ArgSpec) (objs ds : List Ptr)
    → required_loop false specs ≡ true
    → DefaultsFit specs ds
    → DefaultsMade specs ds
    → Parsed (count_required specs) (count_defaulted specs) objs
    → Completes specs objs ds
unfolding fill_defaults count_defaulted count_required required_loop
fill_ordered [] [] ds h f m p = ([], refl, refl, tt)
fill_ordered [] (obj ∷ objs) ds h f m p = absurd p
fill_ordered (required name ∷ specs) [] ds h f m p = absurd p
fill_ordered (required name ∷ specs) (none ∷ objs) ds h f m p = absurd p
fill_ordered (required name ∷ specs) (some o ∷ objs) [] h f m p = absurd f
fill_ordered (required name ∷ specs) (some o ∷ objs) (some d ∷ ds) h f m p = absurd f
fill_ordered (required name ∷ specs) (some o ∷ objs) (none ∷ ds) h f m p =
    let (os, e, l, c) = fill_ordered specs objs ds h f m p in (o ∷ os, rw e, ap suc l, (refl, c))
fill_ordered (defaulted name value ∷ specs) objs ds h f m p =
    fill_optional (defaulted name value ∷ specs) objs ds h f m
      (subst (λ r. Parsed r (suc (count_defaulted specs)) objs) (letters_started specs h).1 p)

-- The loop did not read behind the last default, and filled in `n` objects.
abbrev pub InBounds : ℕ → Filled → Type 0
InBounds n (filled os) = length os ≡ n
InBounds n default_missing = Unit
InBounds n past_end = ⊥

push_filled-InBounds : (o n : ℕ) (f : Filled) → InBounds n f → InBounds (suc n) (push_filled o f)
push_filled-InBounds o n (filled os) h = ap suc h
push_filled-InBounds o n default_missing h = tt
push_filled-InBounds o n past_end h = absurd h

fill_defaults-InBounds :
    (objs ds : List Ptr) → length objs ≤ length ds → InBounds (length objs) (fill_defaults objs ds)
unfolding fill_defaults
fill_defaults-InBounds [] ds h = refl
fill_defaults-InBounds (obj ∷ objs) [] h = absurd (omega (arith, h))
fill_defaults-InBounds (some o ∷ objs) (d ∷ ds) h =
    push_filled-InBounds o (length objs) (fill_defaults objs ds)
      (fill_defaults-InBounds objs ds (omega (arith, h)))
fill_defaults-InBounds (none ∷ objs) (none ∷ ds) h = tt
fill_defaults-InBounds (none ∷ objs) (some d ∷ ds) h =
    push_filled-InBounds d (length objs) (fill_defaults objs ds)
      (fill_defaults-InBounds objs ds (omega (arith, h)))

length-Parsed : (r k : ℕ) (objs : List Ptr) → Parsed r k objs → length objs ≡ r + k
length-Parsed zero zero [] h = refl
length-Parsed zero zero (p ∷ ps) h = absurd h
length-Parsed zero (suc k) [] h = absurd h
length-Parsed zero (suc k) (p ∷ ps) h = omega (arith, length-Parsed zero k ps h)
length-Parsed (suc r) k [] h = absurd h
length-Parsed (suc r) k (none ∷ ps) h = absurd h
length-Parsed (suc r) k (some o ∷ ps) h = omega (arith, length-Parsed r k ps h)

length-DefaultsFit :
    (specs : List ArgSpec) (ds : List Ptr)
    → DefaultsFit specs ds
    → length ds ≡ count_required specs + count_defaulted specs
unfolding count_required count_defaulted
length-DefaultsFit [] [] h = refl
length-DefaultsFit [] (p ∷ ps) h = absurd h
length-DefaultsFit (a ∷ specs) [] h = absurd h
length-DefaultsFit (required name ∷ specs) (none ∷ ps) h =
    omega (arith, length-DefaultsFit specs ps h)
length-DefaultsFit (required name ∷ specs) (some o ∷ ps) h = absurd h
length-DefaultsFit (defaulted name value ∷ specs) (p ∷ ps) h =
    omega (arith, length-DefaultsFit specs ps h)

length-specs : (specs : List ArgSpec) → length specs ≡ count_required specs + count_defaulted specs
unfolding count_required count_defaulted
length-specs [] = refl
length-specs (required name ∷ specs) = omega (arith, length-specs specs)
length-specs (defaulted name value ∷ specs) = omega (arith, length-specs specs)

-- The loop over what a parse has left gives one object for each argument.
pub Parsed-InBounds :
    (specs : List ArgSpec) (objs ds : List Ptr) (n : ℕ)
    → length specs ≡ n
    → DefaultsFit specs ds
    → Parsed (count_required specs) (count_defaulted specs) objs
    → InBounds n (fill_defaults objs ds)
Parsed-InBounds specs objs ds n as_many fit parsed =
    let objs_long = length-Parsed (count_required specs) (count_defaulted specs) objs parsed in
    subst (λ k. InBounds k (fill_defaults objs ds)) (objs_long ∙ sym (length-specs specs) ∙ as_many)
      (fill_defaults-InBounds objs ds (omega (arith, objs_long, length-DefaultsFit specs ds fit)))

module _ {V Call : Type 0} (P : Python) (parse : Parser Call) where
  call_filled-KeepsConvention :
      (error_type : Ptr) (f : CppFunction V) (args : Filled) (w : World)
      → FunctionIsHonest f
      → w.error ≡ none
      → InBounds (arity f) args
      → KeepsConvention (call_filled P parse error_type f args w)
  call_filled-KeepsConvention error_type f (filled os) w h e b =
      settle-KeepsConvention error_type (invoke P f os w).0 (invoke P f os w).1
        (invoke-IsHonest P f os h b w e)
  call_filled-KeepsConvention error_type f default_missing w h e b = (λ _. cc, λ _. refl)
  call_filled-KeepsConvention error_type f past_end w h e b = absurd b

  call_parsed-KeepsConvention :
      (specs : List ArgSpec) (error_type : Ptr) (f : CppFunction V) (spec : KwSpec)
      (r : Option (List Ptr) × World)
      → FunctionIsHonest f
      → length specs ≡ arity f
      → DefaultsFit specs spec.defaults
      → ParseEnds (count_required specs) (count_defaulted specs) r
      → KeepsConvention (call_parsed P parse error_type f spec r)
  call_parsed-KeepsConvention specs error_type f spec (none, w) h as_many fit ends =
      (λ _. ends, λ _. refl)
  call_parsed-KeepsConvention specs error_type f spec (some objs, w) h as_many fit ends =
      call_filled-KeepsConvention error_type f (fill_defaults objs spec.defaults) w h ends.0
        (Parsed-InBounds specs objs spec.defaults (arity f) as_many fit ends.1)

  -- After a registration whose required parameters come first, of a function not yet registered in
  -- this import: a call with keyword arguments, made with no error pending on a function that keeps
  -- to Python's rules and has as many parameters as there are arguments, gives a null pointer exactly when it leaves an error set. This holds also
  -- where a default could not be made. `parse` does what CPython documents of its argument parser.
  pub call_wrapper_kw-KeepsConvention :
      (registration_epoch : ℕ) (name : Bytes) (specs : List ArgSpec) (spec : KwSpec) (w_reg : World)
      (error_type : Ptr) (f : CppFunction V) (call : Call) (w : World)
      → ParsesArguments parse
      → spec.epoch ≢ registration_epoch
      → required_before_optional specs ≡ true
      → FunctionIsHonest f
      → length specs ≡ arity f
      → w.error ≡ none
      → KeepsConvention (
          call_wrapper_kw P parse error_type f
            (register_spec P registration_epoch name specs spec w_reg).0
            call
            w)
  unfolding call_wrapper_kw
  call_wrapper_kw-KeepsConvention registration_epoch name specs spec w_reg error_type f call w
        parses fresh ordered h as_many e =
      let spec' = (register_spec P registration_epoch name specs spec w_reg).0 in
      let (format_is, kwlist_is, fit, epoch_is) =
        register_spec_fits P registration_epoch name specs spec w_reg fresh ordered in
      call_parsed-KeepsConvention specs error_type f spec' (parse spec'.format spec'.kwlist call w)
        h as_many fit
        (subst
          (λ t.
            ParseEnds (count_required specs) (count_defaulted specs) (parse t spec'.kwlist call w))
          (sym format_is)
          (parses (count_required specs) (count_defaulted specs) name spec'.kwlist call w e))

  -- After a registration whose required parameters come first, of a function not yet registered in
  -- this import, with every default made: where the parser leaves the pointers `objs`, the call
  -- invokes the function on one object for each parameter, which is the one given or else the stored
  -- default, and what that gives or throws becomes the call's answer.
  pub call_wrapper_kw_completes :
      (registration_epoch : ℕ) (name : Bytes) (specs : List ArgSpec) (spec : KwSpec) (w_reg : World)
      (error_type : Ptr) (f : CppFunction V) (call : Call) (w : World) (objs : List Ptr)
      (w' : World)
      → ParsesArguments parse
      → spec.epoch ≢ registration_epoch
      → required_before_optional specs ≡ true
      → let spec' = (register_spec P registration_epoch name specs spec w_reg).0 in
        DefaultsMade specs spec'.defaults
        → w.error ≡ none
        → parse spec'.format spec'.kwlist call w ≡ (some objs, w')
        → (os : List ℕ) × (call_wrapper_kw P parse error_type f spec' call w
            ≡ settle error_type (invoke P f os w'))
          × (length os ≡ length specs)
          × Chosen objs spec'.defaults os
  unfolding call_wrapper_kw required_before_optional
  call_wrapper_kw_completes registration_epoch name specs spec w_reg error_type f call w objs w'
        parses fresh ordered made e parsed =
      let spec' = (register_spec P registration_epoch name specs spec w_reg).0 in
      let (format_is, kwlist_is, fit, epoch_is) =
        register_spec_fits P registration_epoch name specs spec w_reg fresh ordered in
      let ends =
        subst
          (λ t.
            ParseEnds (count_required specs) (count_defaulted specs) (parse t spec'.kwlist call w))
          (sym format_is)
          (parses (count_required specs) (count_defaulted specs) name spec'.kwlist call w e) in
      let ends' = subst (ParseEnds (count_required specs) (count_defaulted specs)) parsed ends in
      let (os, filled_is, os_long, chosen) =
        fill_ordered specs objs spec'.defaults ordered fit made ends'.1 in
      (os, rw (parsed, filled_is) refl, os_long, chosen)
