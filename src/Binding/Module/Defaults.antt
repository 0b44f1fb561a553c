-- ===== src/Binding/Module/Defaults.antt =====
-- An error that is set while the defaults of a function are registered (register_spec of
-- include/sciforge/binding/dispatch.hpp) stays set.
use sciforge.Base.{ℕ, ◌≡◌, ◌≢◌, refl, Bytes, List, [], ◌∷◌, none, some, inl, inr}
use sciforge.Binding.Python.{Ptr, World, Python, MakesObject, decref}
use sciforge.Binding.Keywords.{
  Default, none_default, text, signed, unsigned, floating, ArgSpec, required, defaulted, KwSpec,
  register_spec, default_object, or_no_memory, release_defaults, add_args, add_required,
  add_defaulted, start_optional,
}
use sciforge.Binding.Keywords.Claims.{MakesDefaults, claim_cases}

-- An error that is set stays set, perhaps as another.
abbrev pub ErrorStays : World → World → Type 0
ErrorStays w w' = w.error ≢ none → w'.error ≢ none

release_defaults-error : (ps : List Ptr) (w : World) → (release_defaults ps w).error ≡ w.error
unfolding release_defaults
release_defaults-error [] w = refl
release_defaults-error (none ∷ ps) w = release_defaults-error ps w
release_defaults-error (some o ∷ ps) w = release_defaults-error ps (decref o w)

module _ (P : Python) (makes : MakesDefaults P) where
  made-ErrorStays :
      (f : World → Ptr × World) (w : World) → MakesObject f → ErrorStays w (or_no_memory (f w)).1
  made-ErrorStays f w m h = elim (m w) [
    | inl (o, made) ↦ rw made h
    | inr (e, failed) ↦ rw failed cc
  ]

  pub default_object-ErrorStays :
      (value : Default) (w : World) → ErrorStays w (default_object P value w).1
  unfolding default_object
  default_object-ErrorStays none_default w h = h
  default_object-ErrorStays (text t) w h =
      made-ErrorStays (P.unicode_from_string t) w (makes.unicode t) h
  default_object-ErrorStays (signed n) w h =
      made-ErrorStays (P.long_from_long_long n) w (makes.long n) h
  default_object-ErrorStays (unsigned n) w h =
      made-ErrorStays (P.long_from_unsigned n) w (makes.unsigned_long n) h
  default_object-ErrorStays (floating d) w h =
      made-ErrorStays (P.float_from_double d) w (makes.float d) h

  pub add_args-ErrorStays :
      (specs : List ArgSpec) (spec : KwSpec) (w : World)
      → ErrorStays w (add_args P specs (spec, w)).1
  unfolding add_args
  add_args-ErrorStays [] spec w h = h
  add_args-ErrorStays (required name ∷ specs) spec w h =
      add_args-ErrorStays specs (add_required name spec) w h
  add_args-ErrorStays (defaulted name value ∷ specs) spec w h =
      let made = default_object P value w in
      add_args-ErrorStays specs (add_defaulted name made.0 (start_optional spec)) made.1
        (default_object-ErrorStays value w h)

  pub register_spec-ErrorStays :
      (registration_epoch : ℕ) (name : Bytes) (specs : List ArgSpec) (spec : KwSpec) (w : World)
      → ErrorStays w (register_spec P registration_epoch name specs spec w).1
  unfolding register_spec
  register_spec-ErrorStays registration_epoch name specs spec w h =
      elim (claim_cases registration_epoch name spec w) [
        | inl refused ↦ rw refused (λ e. cc)
        | inr claimed ↦ rw claimed (
            add_args-ErrorStays specs _ (release_defaults spec.defaults w)
              (rw (release_defaults-error spec.defaults w) h))
      ]
