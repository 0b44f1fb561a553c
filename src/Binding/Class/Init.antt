-- ===== src/Binding/Class/Init.antt =====
-- Constructing an instance (class_init of include/sciforge/binding/class.hpp): it holds a value from the
-- first construction that succeeds, and that value is never replaced.
use sciforge.Base.{
  length, ℕ, ◌≡◌, ◌≢◌, ◌⊎◌, refl, sym, ap, ◌∙◌, subst, ◌++◌, codes, Bool, true, List, Option, none,
  some, Bool-cases, Option-cases, inl, inr, All, ==_refl,
}
use sciforge.Base.Int.{ℤ, pos, negsuc}
use sciforge.Cpp.{Result, ok, throw, bad_alloc}
use sciforge.Binding.Python.{Ptr, World, Python, type_error, set_error, ◌>>=◌}
use sciforge.Binding.Convention.{IsHonest, EndsHonest, translate-sets_error, >>=-IsHonest}
use sciforge.Binding.Dispatch.{extract}
use sciforge.Binding.Dispatch.Calls.{extract-IsHonest}
use sciforge.Binding.Keywords.{
  ArgSpec, KwSpec, Filled, filled, default_missing, past_end, fill_defaults, Parser, register_spec,
  required_before_optional, no_memory,
}
use sciforge.Binding.Keywords.Specs.{
  count_required, count_defaulted, DefaultsFit, register_spec_fits,
}
use sciforge.Binding.Keywords.KeywordCalls.{ParsesArguments, ParseEnds, InBounds, Parsed-InBounds}
use sciforge.Binding.Class.{
  Instances, hold, Factory, init_made, init_filled, init_parsed, class_init,
}

-- What the constructions leave that run within one of the factory `f`: the instances as they were, or
-- as some run of the casters and the factory leaves them.
abbrev pub LeftBy : {V T : Type 0} → Factory V T → Instances T → Instances T → Type 0
LeftBy f I J = (J ≡ I) ⊎ ((os : List ℕ) × (v : World) × (J ≡ f.within os v I))

-- How a construction may end, where the ones within it leave `J`: with 0, no error, and a value where
-- there was none at its start, every other instance as in `J`; or with -1, an error set, and every
-- instance as in `J`.
abbrev pub InitEnds :
    {V T : Type 0} → Factory V T → Instances T → ℕ → ℤ × Instances T × World → Type 0
InitEnds {T = T} f I self (code, I', w) =
    (J : Instances T) × LeftBy f I J
    × (((code ≡ pos 0)
          × (w.error ≡ none)
          × ((value : T) × (I.held self ≡ none) × (I' ≡ hold self value J)))
        ⊎ ((code ≡ negsuc 0) × (w.error ≢ none) × (I' ≡ J)))

-- What a construction stores, whatever it runs: the value with a 0, nothing with a -1.
abbrev pub Stores :
    {V T : Type 0} → Factory V T → Instances T → ℕ → ℤ × Instances T × World → Type 0
Stores {T = T} f I self (code, I', w) =
    (J : Instances T) × LeftBy f I J
    × (((code ≡ pos 0) × ((value : T) × (I' ≡ hold self value J))) ⊎ ((code ≡ negsuc 0) × (I' ≡ J)))

-- A construction that fails before its casters run.
fails_early :
    {V T : Type 0} (f : Factory V T) (I : Instances T) (self : ℕ) (w : World)
    → w.error ≢ none
    → InitEnds f I self (negsuc 0, I, w)
fails_early f I self w h = (I, inl refl, inr (refl, h, refl))

-- The casters and the body of a factory keep to Python's rules for errors.
abbrev pub FactoryIsHonest : {V T : Type 0} → Factory V T → Type 0
FactoryIsHonest {V} f =
    All (λ c. (o : ℕ) → IsHonest (c o)) f.casters × ((vs : List V) → IsHonest (f.make vs))

module _ {T : Type 0} (error_type : Ptr) (has_memory : Bool) where
  init_made-InitEnds :
      {V : Type 0} (f : Factory V T) (I J : Instances T) (self : ℕ) (r : Result T) (w : World)
      → I.held self ≡ none
      → LeftBy f I J
      → EndsHonest (r, w)
      → InitEnds f I self (init_made error_type has_memory J self (r, w))
  init_made-InitEnds f I J self (throw e) w n left h =
      (J, left, inr (refl, translate-sets_error error_type e w h, refl))
  init_made-InitEnds f I J self (ok value) w n left h = elim (Bool-cases has_memory) [
    | inl enough ↦ rw enough (J, left, inl (refl, h, (value, n, refl)))
    | inr out_of_memory ↦
        rw out_of_memory (J, left, inr (refl, translate-sets_error error_type bad_alloc w tt, refl))
  ]

  init_filled-InitEnds :
      {V : Type 0} (P : Python) (f : Factory V T) (I : Instances T) (self : ℕ) (args : Filled)
      (w : World)
      → I.held self ≡ none
      → FactoryIsHonest f
      → InBounds (length f.casters) args
      → w.error ≡ none
      → InitEnds f I self (init_filled error_type has_memory f I self args w)
  init_filled-InitEnds P f I self (filled os) w n h b e =
      let r = (extract f.casters os >>= f.make) w in
      init_made-InitEnds f I (f.within os w I) self r.0 r.1 n (inr (os, w, refl))
        (>>=-IsHonest (extract f.casters os) f.make (extract-IsHonest P f.casters os h.0 b) h.1 w e)
  init_filled-InitEnds P f I self default_missing w n h b e =
      fails_early f I self (no_memory w).1 (λ c. cc)
  init_filled-InitEnds P f I self past_end w n h b e = absurd b

  init_parsed-InitEnds :
      {V : Type 0} (P : Python) (specs : List ArgSpec) (f : Factory V T) (spec : KwSpec)
      (I : Instances T) (self : ℕ) (r : Option (List Ptr) × World)
      → I.held self ≡ none
      → FactoryIsHonest f
      → length specs ≡ length f.casters
      → DefaultsFit specs spec.defaults
      → ParseEnds (count_required specs) (count_defaulted specs) r
      → InitEnds f I self (init_parsed error_type has_memory f spec I self r)
  init_parsed-InitEnds P specs f spec I self (none, w) n h as_many fit ends =
      fails_early f I self w ends
  init_parsed-InitEnds P specs f spec I self (some objs, w) n h as_many fit ends =
      init_filled-InitEnds P f I self (fill_defaults objs spec.defaults) w n h
        (Parsed-InBounds specs objs spec.defaults (length f.casters) as_many fit ends.1) ends.0

  pub class_init_new :
      {V Call : Type 0} (parse : Parser Call) (f : Factory V T) (spec : KwSpec) (I : Instances T)
      (self : ℕ) (call : Call) (w : World)
      → I.held self ≡ none
      → class_init error_type has_memory parse f spec I self call w
        ≡ init_parsed error_type has_memory f spec I self (parse spec.format spec.kwlist call w)
  unfolding class_init
  class_init_new parse f spec I self call w n = rw (class_init, n) refl

  pub class_init_held :
      {V Call : Type 0} (parse : Parser Call) (f : Factory V T) (spec : KwSpec) (I : Instances T)
      (self : ℕ) (call : Call) (w : World) (value : T)
      → I.held self ≡ some value
      → class_init error_type has_memory parse f spec I self call w ≡ (
        negsuc 0,
        I,
        set_error (type_error (I.class_name ++ codes " cannot be re-initialized")) w,
      )
  unfolding class_init
  class_init_held parse f spec I self call w value s = rw (class_init, s) refl

  -- After a def_init whose required parameters come first, of a factory not yet registered in this
  -- import: a construction, made with no error pending and with a factory that keeps to Python's
  -- rules and has as many parameters as there are arguments, ends in one of two ways. It gives 0 with no
  -- error set, and the instance, which held nothing at the start, holds a value; or it gives -1 with an
  -- error set. All else is as the constructions leave it that run within this one, in a caster or in the
  -- factory: every other instance after a 0, and every instance, this one too, after a -1; without any,
  -- they hold what they held before. `parse` does what CPython documents of its parser.
  pub class_init-InitEnds :
      {V Call : Type 0} (P : Python) (parse : Parser Call) (registration_epoch : ℕ)
      (specs : List ArgSpec) (spec : KwSpec) (w_reg : World) (f : Factory V T) (I : Instances T)
      (self : ℕ) (call : Call) (w : World)
      → ParsesArguments parse
      → spec.epoch ≢ registration_epoch
      → required_before_optional specs ≡ true
      → FactoryIsHonest f
      → length specs ≡ length f.casters
      → w.error ≡ none
      → InitEnds f I self (
          class_init error_type has_memory parse f
            (register_spec P registration_epoch I.class_name specs spec w_reg).0
            I
            self
            call
            w)
  class_init-InitEnds P parse registration_epoch specs spec w_reg f I self call w parses fresh
        ordered h as_many e =
      let spec' = (register_spec P registration_epoch I.class_name specs spec w_reg).0 in
      let (format_is, kwlist_is, fit, epoch_is) =
        register_spec_fits P registration_epoch I.class_name specs spec w_reg fresh ordered in
      elim (Option-cases (I.held self)) [
        | inl n ↦ subst (InitEnds f I self) (sym (class_init_new parse f spec' I self call w n)) (
            init_parsed-InitEnds P specs f spec' I self (parse spec'.format spec'.kwlist call w) n h
              as_many fit
              (subst
                (λ t.
                  ParseEnds (count_required specs) (count_defaulted specs)
                    (parse t spec'.kwlist call w))
                (sym format_is)
                (parses (count_required specs) (count_defaulted specs) I.class_name spec'.kwlist
                  call w e)))
        | inr (value, s) ↦
            subst (InitEnds f I self) (sym (class_init_held parse f spec' I self call w value s)) (
              fails_early f I self
                (set_error (type_error (I.class_name ++ codes " cannot be re-initialized")) w)
                (λ c. cc))
      ]

  init_made-Stores :
      {V : Type 0} (f : Factory V T) (I J : Instances T) (self : ℕ) (r : Result T) (w : World)
      → LeftBy f I J
      → Stores f I self (init_made error_type has_memory J self (r, w))
  init_made-Stores f I J self (throw e) w left = (J, left, inr (refl, refl))
  init_made-Stores f I J self (ok value) w left = elim (Bool-cases has_memory) [
    | inl enough ↦ rw enough (J, left, inl (refl, (value, refl)))
    | inr out_of_memory ↦ rw out_of_memory (J, left, inr (refl, refl))
  ]

  init_filled-Stores :
      {V : Type 0} (f : Factory V T) (I : Instances T) (self : ℕ) (args : Filled) (w : World)
      → Stores f I self (init_filled error_type has_memory f I self args w)
  init_filled-Stores f I self (filled os) w =
      let r = (extract f.casters os >>= f.make) w in
      init_made-Stores f I (f.within os w I) self r.0 r.1 (inr (os, w, refl))
  init_filled-Stores f I self default_missing w = (I, inl refl, inr (refl, refl))
  init_filled-Stores f I self past_end w = (I, inl refl, inr (refl, refl))

  pub init_parsed-Stores :
      {V : Type 0} (f : Factory V T) (spec : KwSpec) (I : Instances T) (self : ℕ)
      (r : Option (List Ptr) × World)
      → Stores f I self (init_parsed error_type has_memory f spec I self r)
  init_parsed-Stores f spec I self (none, w) = (I, inl refl, inr (refl, refl))
  init_parsed-Stores f spec I self (some objs, w) =
      init_filled-Stores f I self (fill_defaults objs spec.defaults) w

  class_init-Stores :
      {V Call : Type 0} (parse : Parser Call) (f : Factory V T) (spec : KwSpec) (I : Instances T)
      (self : ℕ) (call : Call) (w : World)
      → Stores f I self (class_init error_type has_memory parse f spec I self call w)
  class_init-Stores parse f spec I self call w = elim (Option-cases (I.held self)) [
    | inl n ↦
        subst (Stores f I self) (sym (class_init_new parse f spec I self call w n))
          (init_parsed-Stores f spec I self (parse spec.format spec.kwlist call w))
    | inr (value, s) ↦
        subst (Stores f I self) (sym (class_init_held parse f spec I self call w value s))
          (I, inl refl, inr (refl, refl))
  ]

held-hold :
    {T : Type 0} (self : ℕ) (value : T) (I : Instances T)
    → (hold self value I).held self ≡ some value
unfolding hold
held-hold self value I = rw ==_refl refl

-- Once a construction of an instance has given 0, every later one of it, with any factory, arguments
-- and memory, gives -1 and a TypeError, and leaves all instances as they are.
pub class_init_twice :
    {T V Call : Type 0} (error_type : Ptr) (has_memory has_memory_again : Bool)
    (parse : Parser Call) (f g : Factory V T) (spec other : KwSpec) (I : Instances T) (self : ℕ)
    (call again : Call) (w v : World)
    → let (code, I', w') = class_init error_type has_memory parse f spec I self call w in
      code ≡ pos 0
      → class_init error_type has_memory_again parse g other I' self again v ≡ (
        negsuc 0,
        I',
        set_error (type_error (I'.class_name ++ codes " cannot be re-initialized")) v,
      )
class_init_twice error_type has_memory has_memory_again parse f g spec other I self call again w v
      z =
    let left = (class_init error_type has_memory parse f spec I self call w).1 in
    let (J, within, stores) = class_init-Stores error_type has_memory parse f spec I self call w in
    elim stores [
      | inl (done, (value, holds)) ↦
          class_init_held error_type has_memory_again parse g other left self again v value
            (ap (λ K. K.held self) holds ∙ held-hold self value J)
      | inr (failed, same) ↦ absurd (cc (sym z ∙ failed))
    ]
