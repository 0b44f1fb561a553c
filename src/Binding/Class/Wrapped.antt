-- ===== src/Binding/Class/Wrapped.antt =====
-- A C++ value on its way through Python and back: class_wrap and class_unwrap of
-- include/sciforge/binding/class.hpp, as the caster of a wrapped type calls them.
use sciforge.Base.{
  ℕ, ◌≡◌, ◌≢◌, ◌⊎◌, refl, sym, ap, subst, codes, Bool, true, ◌∷◌, none, some, inl, inr, ==_refl,
  ==_ne, Bool-cases,
}
use sciforge.Cpp.{ok}
use sciforge.Binding.Python.{Ptr, World, PyError, set_error, system_error}
use sciforge.Binding.Convert.Containers.{release-head}
use sciforge.Binding.Class.{
  Instances, hold, class_unwrap, class_wrap, wrapped, wrapped_from_python, wrapped_to_python,
}

-- What CPython documents of PyType_GenericAlloc: a new reference to an instance of the type, or an
-- error.
abbrev pub AllocatesInstances : (ℕ → World → Ptr × World) → (ℕ → ℕ → Bool) → Type 0
AllocatesInstances generic_alloc type_check =
    (type : ℕ) (w : World)
    → ((o : ℕ) × (type_check o type ≡ true)
        × (generic_alloc type w ≡ (some o, record w { owned = o ∷ w.owned })))
      ⊎ ((e : PyError) × (generic_alloc type w ≡ (none, set_error e w)))

module _ {T : Type 0} where
  -- A value has been wrapped in a new object, which is owned and gives it back; every other object gives what it
  -- gave before.
  abbrev pub GivesBack : T → Instances T → World → Ptr × Instances T × World → Type 0
  GivesBack value I w (r, I', w') =
      (o : ℕ) × (r ≡ some o)
      × (w'.owned ≡ o ∷ w.owned)
      × (w'.error ≡ w.error)
      × ((v : World) → wrapped_from_python I' o v ≡ (ok value, v))
      × ((other : ℕ) (v : World)
          → other ≢ o
          → wrapped_from_python I' other v ≡ wrapped_from_python I other v)

  -- No object is made: an error is set, and nothing else has changed.
  abbrev pub Refuses : Instances T → World → Ptr × Instances T × World → Type 0
  Refuses I w (r, I', w') = (r ≡ none) × (I' ≡ I) × (w'.error ≢ none) × (w'.owned ≡ w.owned)

  unwrap_held :
      (I : Instances T) (type o : ℕ) (value : T) (v : World)
      → I.class_type ≡ some type
      → I.type_check o type ≡ true
      → class_unwrap (hold o value I) o v ≡ (ok value, v)
  unfolding class_unwrap hold
  unwrap_held I type o value v registered is = rw (registered, is, ==_refl) refl

  unwrap_other :
      (I : Instances T) (o other : ℕ) (value : T) (v : World)
      → other ≢ o
      → class_unwrap (hold o value I) other v ≡ class_unwrap I other v
  unfolding class_unwrap hold
  unwrap_other I o other value v different = rw (==_ne other o different) refl

  class_wrap_registered :
      (generic_alloc : ℕ → World → Ptr × World) (has_memory : Bool) (value : T) (I : Instances T)
      (type : ℕ) (w : World)
      → I.class_type ≡ some type
      → class_wrap generic_alloc has_memory value I w
        ≡ wrapped has_memory value I (generic_alloc type w)
  unfolding class_wrap
  class_wrap_registered generic_alloc has_memory value I type w registered =
      ap
        (λ t. elim t [
          | none ↦ (none, I, set_error (system_error (codes "wrapped type not registered")) w)
          | some found ↦ wrapped has_memory value I (generic_alloc found w)
        ])
        registered

  wrapped_cases :
      (generic_alloc : ℕ → World → Ptr × World) (has_memory : Bool) (value : T) (I : Instances T)
      (type : ℕ) (w : World)
      → AllocatesInstances generic_alloc I.type_check
      → I.class_type ≡ some type
      → let r = wrapped has_memory value I (generic_alloc type w) in
        GivesBack value I w r ⊎ Refuses I w r
  wrapped_cases generic_alloc has_memory value I type w allocates registered =
      elim (allocates type w) [
        | inr (e, failed) ↦ inr (rw failed (refl, refl, (λ n. cc), refl))
        | inl (o, is, made) ↦ elim (Bool-cases has_memory) [
          | inr out_of_memory ↦
              inr (rw (made, out_of_memory) (refl, refl, (λ n. cc), release-head o w.owned))
          | inl enough ↦ inl (
              rw (made, enough)
                (
                  o,
                  refl,
                  refl,
                  refl,
                  (λ v. unwrap_held I type o value v registered is),
                  λ other v different. unwrap_other I o other value v different,
                ))
        ]
      ]

  -- The caster of a registered type hands a value to Python in a new object, from which it gives the value
  -- back, whatever has been set since, while every other object gives what it gave before; or it gives
  -- a null pointer with an error set, with no reference left and no object changed. PyType_GenericAlloc
  -- does what CPython documents of it.
  pub wrapped_from_python-to_python :
      (generic_alloc : ℕ → World → Ptr × World) (has_memory : Bool) (value : T) (I : Instances T)
      (type : ℕ) (w : World)
      → AllocatesInstances generic_alloc I.type_check
      → I.class_type ≡ some type
      → let r = wrapped_to_python generic_alloc has_memory value I w in
        GivesBack value I w r ⊎ Refuses I w r
  wrapped_from_python-to_python generic_alloc has_memory value I type w allocates registered =
      subst (λ r. GivesBack value I w r ⊎ Refuses I w r)
        (sym (class_wrap_registered generic_alloc has_memory value I type w registered))
        (wrapped_cases generic_alloc has_memory value I type w allocates registered)
