-- ===== src/Binding/Keywords/Claims.antt =====
-- Registering a function's keyword spec again (include/sciforge/binding/dispatch.hpp): refused within
-- one import, and without a leak in a later one.
use sciforge.Base.{
  ℕ, ◌+◌, ◌≤◌, ◌≡◌, ◌≢◌, ◌⊎◌, refl, Bytes, true, false, List, [], ◌∷◌, ◌++◌, none, some, arith,
  ◌==◌, Bool-cases, inl, inr, if◌then◌else◌,
}
use sciforge.Base.Int.{ℤ}
use sciforge.Binding.Python.{
  Ptr, World, Double, Python, MakesObject, system_error, set_error, release, decref,
}
use sciforge.Binding.Keywords.{
  Default, none_default, text, signed, unsigned, floating, ArgSpec, required, defaulted, KwSpec,
  empty_spec, default_object, claim_kw_spec, release_defaults, claim_message, add_args,
  add_required, add_defaulted, start_optional, or_no_memory, register_spec, close_spec,
}
use sciforge.Binding.Keywords.Specs.{claim_fresh, add_args-epoch, new_defaults, add_args-defaults}

pub claim_taken :
    (registration_epoch : ℕ) (name : Bytes) (spec : KwSpec) (w : World)
    → spec.epoch ≡ registration_epoch
    → registration_epoch ≢ 0
    → claim_kw_spec registration_epoch name spec w
      ≡ (false, spec, set_error (system_error (claim_message name)) w)
unfolding claim_kw_spec
claim_taken registration_epoch name spec w taken started = ground arith

pub claim_cases :
    (registration_epoch : ℕ) (name : Bytes) (spec : KwSpec) (w : World)
    → (claim_kw_spec registration_epoch name spec w
        ≡ (false, spec, set_error (system_error (claim_message name)) w))
      ⊎ (claim_kw_spec registration_epoch name spec w ≡ (
        true,
        record empty_spec { epoch = registration_epoch },
        release_defaults spec.defaults w,
      ))
claim_cases registration_epoch name spec w = elim (Bool-cases (spec.epoch == registration_epoch)) [
  | inr fresh ↦ inr (claim_fresh registration_epoch name spec w (λ e. ground arith))
  | inl same ↦ elim (Bool-cases (registration_epoch == 0)) [
    | inl zero_epoch ↦ inr (unfold claim_kw_spec in ground arith)
    | inr started ↦ inl (claim_taken registration_epoch name spec w (ground arith) (ground arith))
  ]
]

-- How many of the references owned are to `o`.
unfoldable pub count : ℕ → List ℕ → ℕ
count o [] = 0
count o (p ∷ ps) = (if p == o then 1 else 0) + count o ps

-- How many of the stored defaults are `o`.
unfoldable pub count_ptrs : ℕ → List Ptr → ℕ
count_ptrs o [] = 0
count_ptrs o (none ∷ ps) = count_ptrs o ps
count_ptrs o (some p ∷ ps) = (if p == o then 1 else 0) + count_ptrs o ps

pub count-release :
    (o p : ℕ) (owned : List ℕ)
    → 1 ≤ count p owned
    → count o (release p owned) + (if p == o then 1 else 0) ≡ count o owned
unfolding count release
count-release o p [] h = absurd (omega arith)
count-release o p (q ∷ owned) h = elim (Bool-cases (q == p)) [
  | inl here ↦ rw here (ground (arith, here))
  | inr other ↦ rw other (ground (arith, other, count-release o p owned))
]

-- What every object's count is before and after the stored defaults `ps` are released.
count-release_defaults :
    (o : ℕ) (ps : List Ptr) (w : World)
    → ((p : ℕ) → count_ptrs p ps ≤ count p w.owned)
    → count o (release_defaults ps w).owned + count_ptrs o ps ≡ count o w.owned
unfolding release_defaults count_ptrs
count-release_defaults o [] w h = omega arith
count-release_defaults o (none ∷ ps) w h = count-release_defaults o ps w h
count-release_defaults o (some p ∷ ps) w h =
    let held : 1 ≤ count p w.owned = ground (arith, h p) in
    let rest =
      count-release_defaults o ps (decref p w)
        (λ q. ground (arith, h q, count-release q p w.owned held)) in
    ground (arith, rest, count-release o p w.owned held)

count_ptrs-append :
    (o : ℕ) (ps qs : List Ptr) → count_ptrs o (ps ++ qs) ≡ count_ptrs o ps + count_ptrs o qs
unfolding count_ptrs
count_ptrs-append o [] qs = omega arith
count_ptrs-append o (none ∷ ps) qs = count_ptrs-append o ps qs
count_ptrs-append o (some p ∷ ps) qs = omega (arith, count_ptrs-append o ps qs)

-- What CPython documents of the calls that make the default objects.
pub record MakesDefaults (P : Python) : Type 0 where
  pub unicode : (t : Bytes) → MakesObject (P.unicode_from_string t)
  pub long : (n : ℤ) → MakesObject (P.long_from_long_long n)
  pub unsigned_long : (n : ℕ) → MakesObject (P.long_from_unsigned n)
  pub float : (d : Double) → MakesObject (P.float_from_double d)

-- The references owned are, for each object, `base` of them and those of the stored defaults.
abbrev pub Ledger : (ℕ → ℕ) → KwSpec → World → Type 0
Ledger base spec w = (o : ℕ) → count o w.owned ≡ base o + count_ptrs o spec.defaults

module _ (P : Python) (makes : MakesDefaults P) where
  made-count :
      (o : ℕ) (f : World → Ptr × World) (w : World)
      → MakesObject f
      → count o (or_no_memory (f w)).1.owned
        ≡ count o w.owned + count_ptrs o ((or_no_memory (f w)).0 ∷ [])
  unfolding count count_ptrs
  made-count o f w m = elim (m w) [
    | inl (p, made) ↦ rw made (omega arith)
    | inr (e, failed) ↦ rw failed (omega arith)
  ]

  default_object-count :
      (o : ℕ) (value : Default) (w : World)
      → count o (default_object P value w).1.owned
        ≡ count o w.owned + count_ptrs o ((default_object P value w).0 ∷ [])
  unfolding default_object
  default_object-count o none_default w = unfold count count_ptrs in omega arith
  default_object-count o (text t) w = made-count o (P.unicode_from_string t) w (makes.unicode t)
  default_object-count o (signed n) w = made-count o (P.long_from_long_long n) w (makes.long n)
  default_object-count o (unsigned n) w =
      made-count o (P.long_from_unsigned n) w (makes.unsigned_long n)
  default_object-count o (floating d) w = made-count o (P.float_from_double d) w (makes.float d)

  add_args-count :
      (o : ℕ) (specs : List ArgSpec) (spec : KwSpec) (w : World)
      → count o (add_args P specs (spec, w)).1.owned
        ≡ count o w.owned + count_ptrs o (new_defaults P specs w)
  unfolding add_args new_defaults count_ptrs
  add_args-count o [] spec w = omega arith
  add_args-count o (required name ∷ specs) spec w =
      add_args-count o specs (add_required name spec) w
  add_args-count o (defaulted name value ∷ specs) spec w =
      let made = default_object P value w in
      let rest = add_args-count o specs (add_defaulted name made.0 (start_optional spec)) made.1 in
      omega (
        arith,
        rest,
        default_object-count o value w,
        count_ptrs-append o (made.0 ∷ []) (new_defaults P specs made.1),
      )

  -- Where the calls that make the defaults give a new reference or set an error, then over any
  -- registration, first, repeated in the same import, or made anew in a later one, the stored defaults
  -- stay exactly the references that the specs own: if for each object the references owned are a
  -- fixed number and those of the stored defaults, they are so afterwards. None leaks and none is
  -- released twice.
  pub register_spec-Ledger :
      (base : ℕ → ℕ) (registration_epoch : ℕ) (name : Bytes) (specs : List ArgSpec) (spec : KwSpec)
      (w : World)
      → Ledger base spec w
      → let (spec', w') = register_spec P registration_epoch name specs spec w in
        Ledger base spec' w'
  unfolding register_spec
  register_spec-Ledger base registration_epoch name specs spec w h =
      elim (claim_cases registration_epoch name spec w) [
        | inl refused ↦ rw refused h
        | inr claimed ↦
            let w' = release_defaults spec.defaults w in
            let start = record empty_spec { epoch = registration_epoch } in
            rw claimed λ o. rw (add_args-defaults P specs start w') (
              omega (
                arith,
                h o,
                count-release_defaults o spec.defaults w (λ p. omega (arith, h p)),
                add_args-count o specs start w',
              ))
      ]

module _ (P : Python) where
  -- Within one import (its number is above zero), after a registration of a function not yet
  -- registered in it, a second one is refused, whatever its names and defaults: the spec stays that of
  -- the first, no reference is made or given up, and a SystemError that names the second is set.
  pub register_spec_twice :
      (registration_epoch : ℕ) (name other : Bytes) (specs others : List ArgSpec) (spec : KwSpec)
      (w : World)
      → registration_epoch ≢ 0
      → spec.epoch ≢ registration_epoch
      → let (first, w') = register_spec P registration_epoch name specs spec w in
        register_spec P registration_epoch other others first w'
        ≡ (first, set_error (system_error (claim_message other)) w')
  unfolding register_spec
  register_spec_twice registration_epoch name other specs others spec w started fresh =
      let start = record empty_spec { epoch = registration_epoch } in
      rw (claim_fresh registration_epoch name spec w fresh) (
        rw
          (claim_taken registration_epoch other
            (close_spec name (add_args P specs (start, release_defaults spec.defaults w)).0)
            (add_args P specs (start, release_defaults spec.defaults w)).1
            (add_args-epoch P specs start (release_defaults spec.defaults w)) started)
          refl)
