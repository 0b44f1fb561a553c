-- ===== src/Binding/Keywords/Specs.antt =====
-- The keyword spec that a registration of include/sciforge/binding/dispatch.hpp makes: its format, its
-- names and its defaults.
use sciforge.Base.{
  ℕ, suc, ◌≡◌, ◌≢◌, refl, sym, ap, subst, ◌∙◌, Bytes, Bool, true, false, List, [], ◌∷◌, ◌++◌, map,
  Option, none, some, arith, ◌==◌, Bool-cases, inl, inr, replicate, append_assoc, append-nil,
  if◌then◌else◌,
}
use sciforge.Binding.Python.{Ptr, World, Python}
use sciforge.Binding.Keywords.{
  ArgSpec, required, defaulted, KwSpec, empty_spec, default_object, claim_kw_spec, release_defaults,
  required_loop, required_before_optional, start_optional, add_required, add_defaulted, add_args,
  register_spec,
}

abbrev pub name_of : ArgSpec → Bytes
name_of (required name) = name
name_of (defaulted name value) = name

unfoldable pub count_required : List ArgSpec → ℕ
count_required [] = 0
count_required (required name ∷ specs) = suc (count_required specs)
count_required (defaulted name value ∷ specs) = count_required specs

unfoldable pub count_defaulted : List ArgSpec → ℕ
count_defaulted [] = 0
count_defaulted (required name ∷ specs) = count_defaulted specs
count_defaulted (defaulted name value ∷ specs) = suc (count_defaulted specs)

-- The bar and the optional parameters, where there are any.
abbrev pub optional_part : ℕ → Bytes
optional_part n = if n == 0 then [] else b'|' ∷ replicate n b'O'

-- A parameter has no default exactly when it is required (one whose default failed to allocate has a
-- null pointer too).
abbrev pub DefaultsFit : List ArgSpec → List Ptr → Type 0
DefaultsFit [] [] = Unit
DefaultsFit [] (p ∷ ps) = ⊥
DefaultsFit (a ∷ specs) [] = ⊥
DefaultsFit (required name ∷ specs) (none ∷ ps) = DefaultsFit specs ps
DefaultsFit (required name ∷ specs) (some o ∷ ps) = ⊥
DefaultsFit (defaulted name value ∷ specs) (p ∷ ps) = DefaultsFit specs ps

-- What the loop of add_arg appends to the format.
pub letters : Bool → List ArgSpec → Bytes
letters started [] = []
letters started (required name ∷ specs) = b'O' ∷ letters started specs
letters started (defaulted name value ∷ specs) =
    if started then b'O' ∷ letters true specs else b'|' ∷ b'O' ∷ letters true specs

pub letters_started :
    (specs : List ArgSpec)
    → required_loop true specs ≡ true
    → (letters true specs ≡ replicate (count_defaulted specs) b'O') × (count_required specs ≡ 0)
unfolding letters count_required count_defaulted required_loop
letters_started [] h = (refl, refl)
letters_started (required name ∷ specs) h = cc
letters_started (defaulted name value ∷ specs) h =
    let rest = letters_started specs h in (ap (λ t. b'O' ∷ t) rest.0, rest.1)

letters_ordered :
    (specs : List ArgSpec)
    → required_loop false specs ≡ true
    → letters false specs
      ≡ replicate (count_required specs) b'O' ++ optional_part (count_defaulted specs)
unfolding letters count_required count_defaulted required_loop
letters_ordered [] h = refl
letters_ordered (required name ∷ specs) h = ap (λ t. b'O' ∷ t) (letters_ordered specs h)
letters_ordered (defaulted name value ∷ specs) h =
    let rest = letters_started specs h in ground (arith, rest)

format_step :
    (name : Bytes) (object : Ptr) (specs : List ArgSpec) (spec : KwSpec)
    → let added = add_defaulted name object (start_optional spec) in
      added.format ++ letters added.optional_started specs
      ≡ spec.format
        ++ (if spec.optional_started
            then b'O' ∷ letters true specs
            else b'|' ∷ b'O' ∷ letters true specs)
format_step name object specs spec = elim (Bool-cases spec.optional_started) [
  | inl started ↦ rw started (append_assoc spec.format (b'O' ∷ []) (letters true specs))
  | inr fresh ↦ rw fresh (simp append_assoc)
]

kwlist_step :
    (name : Bytes) (object : Ptr) (spec : KwSpec) (rest : List (Option Bytes))
    → (add_defaulted name object (start_optional spec)).kwlist ++ rest
      ≡ spec.kwlist ++ some name ∷ rest
kwlist_step name object spec rest = elim (Bool-cases spec.optional_started) [
  | inl started ↦ rw started (append_assoc spec.kwlist (some name ∷ []) rest)
  | inr fresh ↦ rw fresh (append_assoc spec.kwlist (some name ∷ []) rest)
]

epoch_step :
    (name : Bytes) (object : Ptr) (spec : KwSpec)
    → (add_defaulted name object (start_optional spec)).epoch ≡ spec.epoch
epoch_step name object spec = ground arith

-- The defaults that are there so far, with room for those to come.
defaults_step :
    (name : Bytes) (object : Ptr) (spec : KwSpec)
    → (add_defaulted name object (start_optional spec)).defaults ≡ spec.defaults ++ object ∷ []
defaults_step name object spec = ground arith

-- A function not yet registered in this import is claimed, and its old defaults are released.
pub claim_fresh :
    (registration_epoch : ℕ) (name : Bytes) (spec : KwSpec) (w : World)
    → spec.epoch ≢ registration_epoch
    → claim_kw_spec registration_epoch name spec w
      ≡ (true, record empty_spec { epoch = registration_epoch }, release_defaults spec.defaults w)
unfolding claim_kw_spec
claim_fresh registration_epoch name spec w fresh = ground arith

module _ (P : Python) where
  add_args-format :
      (specs : List ArgSpec) (spec : KwSpec) (w : World)
      → (add_args P specs (spec, w)).0.format ≡ spec.format ++ letters spec.optional_started specs
  unfolding add_args letters
  add_args-format [] spec w = rw append-nil
  add_args-format (required name ∷ specs) spec w =
      add_args-format specs (add_required name spec) w ∙ append_assoc spec.format (b'O' ∷ []) _
  add_args-format (defaulted name value ∷ specs) spec w =
      let object = default_object P value w in
      add_args-format specs (add_defaulted name object.0 (start_optional spec)) object.1
      ∙ format_step name object.0 specs spec

  add_args-kwlist :
      (specs : List ArgSpec) (spec : KwSpec) (w : World)
      → (add_args P specs (spec, w)).0.kwlist ≡ spec.kwlist ++ map (λ a. some (name_of a)) specs
  unfolding add_args
  add_args-kwlist [] spec w = rw append-nil
  add_args-kwlist (required name ∷ specs) spec w =
      add_args-kwlist specs (add_required name spec) w ∙ append_assoc spec.kwlist (some name ∷ []) _
  add_args-kwlist (defaulted name value ∷ specs) spec w =
      let object = default_object P value w in
      add_args-kwlist specs (add_defaulted name object.0 (start_optional spec)) object.1
      ∙ kwlist_step name object.0 spec (map (λ a. some (name_of a)) specs)

  pub add_args-epoch :
      (specs : List ArgSpec) (spec : KwSpec) (w : World)
      → (add_args P specs (spec, w)).0.epoch ≡ spec.epoch
  unfolding add_args
  add_args-epoch [] spec w = refl
  add_args-epoch (required name ∷ specs) spec w = add_args-epoch specs (add_required name spec) w
  add_args-epoch (defaulted name value ∷ specs) spec w =
      let object = default_object P value w in
      add_args-epoch specs (add_defaulted name object.0 (start_optional spec)) object.1
      ∙ epoch_step name object.0 spec

  -- The defaults that a registration appends.
  unfoldable pub new_defaults : List ArgSpec → World → List Ptr
  new_defaults [] w = []
  new_defaults (required name ∷ specs) w = none ∷ new_defaults specs w
  new_defaults (defaulted name value ∷ specs) w =
      (default_object P value w).0 ∷ new_defaults specs (default_object P value w).1

  pub add_args-defaults :
      (specs : List ArgSpec) (spec : KwSpec) (w : World)
      → (add_args P specs (spec, w)).0.defaults ≡ spec.defaults ++ new_defaults specs w
  unfolding add_args new_defaults
  add_args-defaults [] spec w = rw append-nil
  add_args-defaults (required name ∷ specs) spec w =
      add_args-defaults specs (add_required name spec) w ∙ append_assoc spec.defaults (none ∷ []) _
  add_args-defaults (defaulted name value ∷ specs) spec w =
      let (object, w') = default_object P value w in
      add_args-defaults specs (add_defaulted name object (start_optional spec)) w'
      ∙ ap (λ ds. ds ++ new_defaults specs w') (defaults_step name object spec)
      ∙ append_assoc spec.defaults (object ∷ []) (new_defaults specs w')

  new_defaults-DefaultsFit :
      (specs : List ArgSpec) (w : World) → DefaultsFit specs (new_defaults specs w)
  unfolding new_defaults
  new_defaults-DefaultsFit [] w = tt
  new_defaults-DefaultsFit (required name ∷ specs) w = new_defaults-DefaultsFit specs w
  new_defaults-DefaultsFit (defaulted name value ∷ specs) w =
      new_defaults-DefaultsFit specs (default_object P value w).1

  -- A registration whose required parameters come first, of a function not yet registered in this
  -- import, leaves a spec that fits the parameters: the format asks for one object each, the required
  -- ones before the bar, and ends in the function's name; the names stand in order before the NULL;
  -- there is one default for each parameter, a null pointer where it is required; and the spec is
  -- claimed for this import.
  pub register_spec_fits :
      (registration_epoch : ℕ) (name : Bytes) (specs : List ArgSpec) (spec : KwSpec) (w : World)
      → spec.epoch ≢ registration_epoch
      → required_before_optional specs ≡ true
      → let spec' = (register_spec P registration_epoch name specs spec w).0 in
        (spec'.format
          ≡ replicate (count_required specs) b'O'
            ++ (optional_part (count_defaulted specs) ++ b':' ∷ name))
        × (spec'.kwlist ≡ map (λ a. some (name_of a)) specs ++ none ∷ [])
        × DefaultsFit specs spec'.defaults
        × (spec'.epoch ≡ registration_epoch)
  unfolding register_spec required_before_optional
  register_spec_fits registration_epoch name specs spec w fresh ordered =
      let start = record empty_spec { epoch = registration_epoch } in
      let w' = release_defaults spec.defaults w in
      let added = (add_args P specs (start, w')).0 in
      let format_is = add_args-format specs start w' ∙ letters_ordered specs ordered in
      rw (claim_fresh registration_epoch name spec w fresh) (
        ap (λ t. t ++ b':' ∷ name) format_is
            ∙ append_assoc (replicate (count_required specs) b'O')
                (optional_part (count_defaulted specs)) (b':' ∷ name),
        ap (λ t. t ++ none ∷ []) (add_args-kwlist specs start w'),
        subst (DefaultsFit specs) (sym (add_args-defaults specs start w'))
            (new_defaults-DefaultsFit specs w'),
        add_args-epoch specs start w',
      )
