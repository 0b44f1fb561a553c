-- ===== src/Binding/Class/Tests.antt =====
-- A wrapped class of include/sciforge/binding/class.hpp over the small interpreter.
use sciforge.Base.{
  ℕ, ◌+◌, ◌≤◌, ◌≡◌, ◌≢◌, ◌⊎◌, inl, refl, Bytes, codes, Bool, true, false, List, [], ◌∷◌, ◌++◌, none,
  some, arith, length, ◌==◌, if◌then◌else◌,
}
use sciforge.Base.Int.{pos, negsuc}
use sciforge.Binding.Python.{Ptr, World, pure, type_error, set_error}
use sciforge.Binding.Convention.{KeepsConvention}
use sciforge.Binding.Keywords.{
  required_before_optional, required_loop, register_spec, fill_defaults,
}
use sciforge.Binding.Dispatch.{extract}
use sciforge.Binding.Class.{
  hold, new_reference, Instances, eq, ne, Singletons, Factory, class_hash, call_method,
  class_richcompare, class_init, wrapped_to_python,
}
use sciforge.Binding.Class.Wrapped.{GivesBack, Refuses, wrapped_from_python-to_python}
use sciforge.Binding.Class.Slots.{
  KeepsNumberConvention, HasValue, class_hash-KeepsNumberConvention, call_method-KeepsConvention,
  class_richcompare-KeepsConvention,
}
use sciforge.Binding.Class.Init.{InitEnds, FactoryIsHonest, class_init-InitEnds, class_init_twice}
use sciforge.Binding.Class.Builder.{
  Registry, Slots, def, def_prop_ro, def_hash, def_init, slots_of, slots_end, Slot, build_class,
}
use sciforge.Binding.Class.Builder.Room.{length-slots_of}
use sciforge.Binding.Class.Builder.Registered.{Built, build_class_again, build_class-Built}
use sciforge.Binding.Fixtures.{
  interpreter, idle, first, first-FunctionIsHonest, parameters, old_spec, parser,
  parser-ParsesArguments,
}

-- The object at 70 holds 2 ^ 64 - 1, the one at 71 nothing; both are of the type at 40.
abbrev widgets : Instances ℕ
widgets = record {
  class_type = some 40;
  class_name = codes "Widget";
  type_check = λ obj type. (type == 40);
  held = λ o. if o == 70 then some 18446744073709551615 else none;
}

abbrev singletons : Singletons
singletons = record { not_implemented = 30; true_object = 31; false_object = 32 }

class_hash-KeepsNumberConvention_example :
    let r = class_hash (some 50) (λ value. pure value) widgets 70 idle in
    KeepsNumberConvention r × (HasValue widgets 70 ⊎ ((r.0 ≡ negsuc 0) × (r.1.error ≢ none)))
class_hash-KeepsNumberConvention_example =
    class_hash-KeepsNumberConvention (some 50) (λ value. pure value) widgets 70 idle
      (λ value w e. e) refl

call_method-KeepsConvention_example :
    let r = call_method interpreter (some 50) 2 (λ value. first) widgets 70 (8 ∷ 1 ∷ []) idle in
    KeepsConvention r
    × (((length {A = ℕ} (8 ∷ 1 ∷ []) ≡ 2) × HasValue widgets 70)
        ⊎ ((what : Bytes) × (r ≡ (none, set_error (type_error what) idle))))
call_method-KeepsConvention_example =
    call_method-KeepsConvention interpreter (some 50) 2 (λ value. first) widgets 70 (8 ∷ 1 ∷ [])
      idle (λ value. first-FunctionIsHonest) (λ value. refl) refl

class_richcompare-KeepsConvention_example :
    let r = class_richcompare singletons (some 50) (λ a b. pure (a == b)) widgets 70 71 eq idle in
    KeepsConvention r
    × ((((eq ≡ eq) ⊎ (eq ≡ ne)) × HasValue widgets 70 × HasValue widgets 71)
        ⊎ (r ≡ new_reference 30 idle))
class_richcompare-KeepsConvention_example =
    class_richcompare-KeepsConvention singletons (some 50) (λ a b. pure (a == b)) widgets 70 71 eq
      idle (λ a b w e. e) refl

-- The sum of the addresses of its arguments. A factory of it also constructs the object at 72.
abbrev total : List ℕ → ℕ
total [] = 0
total (o ∷ os) = o + total os

abbrev sum_factory : Factory ℕ ℕ
sum_factory = record {
  casters = (λ o. pure o) ∷ (λ o. pure o) ∷ [];
  make = λ os. pure (total os);
  within = λ os w I. hold 72 (total os) I;
}

sum_factory-FactoryIsHonest : FactoryIsHonest sum_factory
sum_factory-FactoryIsHonest = ((λ o w e. e, (λ o w e. e, tt)), λ os w e. e)

class_init-InitEnds_example : InitEnds sum_factory widgets 71 (
    class_init
      (some 50)
      true
      parser
      sum_factory
      (register_spec interpreter 2 (codes "Widget") parameters old_spec idle).0
      widgets
      71
      (8 ∷ [])
      idle)
class_init-InitEnds_example =
    class_init-InitEnds (some 50) true interpreter parser 2 parameters old_spec idle sum_factory
      widgets 71 (8 ∷ []) idle parser-ParsesArguments (λ e. omega (arith, e))
      (unfold required_before_optional required_loop in refl) sum_factory-FactoryIsHonest refl refl

-- A spec for the same two parameters.
class_init_test :
    (class_init
      (some 50)
      true
      parser
      sum_factory
      (record old_spec { format = codes "OO:Widget"; defaults = none ∷ none ∷ [] })
      widgets
      71
      (8 ∷ 5 ∷ [])
      idle).0
    ≡ pos 0
unfolding class_init fill_defaults extract
class_init_test = refl

class_init_twice_example :
    let (code, I', w') =
      class_init
        (some 50)
        true
        parser
        sum_factory
        (record old_spec { format = codes "OO:Widget"; defaults = none ∷ none ∷ [] })
        widgets
        71
        (8 ∷ 5 ∷ [])
        idle in
    class_init (some 50) false parser sum_factory old_spec I' 71 [] idle ≡ (
      negsuc 0,
      I',
      set_error (type_error (I'.class_name ++ codes " cannot be re-initialized")) idle,
    )
class_init_twice_example =
    class_init_twice (some 50) true false parser sum_factory sum_factory
      (record old_spec { format = codes "OO:Widget"; defaults = none ∷ none ∷ [] }) old_spec widgets
      71 (8 ∷ 5 ∷ []) [] idle idle class_init_test

abbrev all_slots : Slots
all_slots = record { init = true; repr = true; richcompare = true; hash = true }

length-slots_of_test :
    (length (slots_of all_slots) ≤ 9)
    × ((front : List Slot) × (slots_of all_slots ≡ front ++ slots_end ∷ []))
length-slots_of_test = length-slots_of all_slots

abbrev make_type : Bytes → Bool → List Slot → World → Ptr × World
make_type name constructible slots w = (some 40, w)

abbrev add_ref : Bytes → ℕ → World → Bool × World
add_ref name type w = (false, w)

abbrev unregistered_widget : Registry
unregistered_widget = record {
  class_type = none;
  class_name = codes "?";
  methods = [];
  getsets = [];
}

abbrev registered_widget : Registry
registered_widget = record unregistered_widget { class_type = some 40 }

build_class-Built_example :
    Built make_type add_ref true true
      (codes "demo.Widget")
      (def (codes "area") ∷ def_init 7 parameters ∷ def_prop_ro (codes "width") ∷ [])
      (build_class make_type add_ref true true interpreter 2
        (codes "demo.Widget")
        (def (codes "area") ∷ def_init 7 parameters ∷ def_prop_ro (codes "width") ∷ [])
        unregistered_widget
        (λ f. old_spec)
        idle).0
build_class-Built_example =
    build_class-Built make_type add_ref true true interpreter 2 (codes "demo.Widget")
      (def (codes "area") ∷ def_init 7 parameters ∷ def_prop_ro (codes "width") ∷ [])
      unregistered_widget (λ f. old_spec) idle refl refl refl

build_class_again_example :
    let (r', specs', w') =
      build_class make_type add_ref true true interpreter 3
        (codes "other.Widget")
        (def (codes "volume") ∷ def_hash ∷ [])
        registered_widget
        (λ f. old_spec)
        idle in
    (r' ≡ registered_widget) × (specs' ≡ λ f. old_spec)
build_class_again_example =
    build_class_again make_type add_ref true true interpreter 3 (codes "other.Widget")
      (def (codes "volume") ∷ def_hash ∷ []) registered_widget (λ f. old_spec) idle 40 refl

-- A new object is at 88.
abbrev allocated : ℕ → World → Ptr × World
allocated type w = (some 88, record w { owned = 88 ∷ w.owned })

abbrev typed_widgets : Instances ℕ
typed_widgets = record widgets { type_check = λ obj type. true }

wrapped_from_python-to_python_example :
    let r = wrapped_to_python allocated true 5 typed_widgets idle in
    GivesBack 5 typed_widgets idle r ⊎ Refuses typed_widgets idle r
wrapped_from_python-to_python_example =
    wrapped_from_python-to_python allocated true 5 typed_widgets 40 idle
      (λ type w. inl (88, refl, refl)) refl
