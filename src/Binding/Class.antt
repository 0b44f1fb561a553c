-- ===== src/Binding/Class.antt =====
-- include/sciforge/binding/class.hpp, the entry points of a wrapped type: class_unwrap, class_wrap,
-- call_method, property_getter, class_repr, class_richcompare, class_hash and class_init. A held value
-- is read by value; Store has the memory behind it, which methods write.
pub mod Slots
pub mod Equality
pub mod Store
pub mod Init
pub mod Wrapped
pub mod Nested
pub mod Builder
mod Tests
use sciforge.Base.{
  ℕ, ◌-◌, ◌^◌, ◌==◌, Bytes, codes, Bool, true, false, not, ◌||◌, List, [], ◌∷◌, ◌++◌, Option, none,
  some, ltb, if◌then◌else◌, length,
}
use sciforge.Base.Int.{ℤ, pos, negsuc}
use sciforge.Cpp.{
  Result, ok, throw, cast_error, error_already_set, bad_alloc, std_exception, non_standard,
}
use sciforge.Binding.Python.{
  Ptr, World, Py, pure, raise, ◌>>=◌, Python, type_error, system_error, set_error, decref,
}
use sciforge.Binding.Error.{set_cpp_error, translate}
use sciforge.Binding.Convention.{settle}
use sciforge.Binding.Dispatch.{CppFunction, arity, extract, invoke, wrong_count}
use sciforge.Binding.Keywords.{
  KwSpec, Filled, filled, default_missing, past_end, fill_defaults, no_memory, Parser,
}

-- What is registered of a wrapped type, which object is an instance of a type (PyObject_TypeCheck),
-- and what each instance holds: `none` is a null pointer.
pub record Instances (T : Type 0) : Type 0 where
  pub class_type : Ptr
  pub class_name : Bytes
  pub type_check : ℕ → ℕ → Bool
  pub held : ℕ → Option T

-- The comparisons that Python asks a type for.
pub data CompareOp : Type 0 where
  lt le eq ne gt ge : CompareOp

-- Py_NotImplemented, Py_True and Py_False.
pub record Singletons : Type 0 where
  pub not_implemented : ℕ
  pub true_object : ℕ
  pub false_object : ℕ

abbrev pub new_reference : ℕ → World → Ptr × World
new_reference o w = (some o, record w { owned = o ∷ w.owned })

-- `static_cast<Py_hash_t>` of a std::size_t, and the -1 that it may not be.
abbrev pub as_hash : ℕ → ℤ
as_hash h = if ltb h (2 ^ 63) then pos h else negsuc (2 ^ 64 - 1 - h)

abbrev pub avoid_error_value : ℤ → ℤ
avoid_error_value (pos n) = pos n
avoid_error_value (negsuc n) = if n == 0 then negsuc 1 else negsuc n

-- A constructor: the casters of the factory's parameters, the factory, and what the two, run on some
-- objects, leave of the instances: Python code that runs within them may construct and free others.
pub record Factory (V T : Type 0) : Type 0 where
  pub casters : List (ℕ → Py V)
  pub make : List V → Py T
  pub within : List ℕ → World → Instances T → Instances T

abbrev pub is_instance_of : (ℕ → ℕ → Bool) → ℕ → Ptr → Bool
is_instance_of type_check obj none = false
is_instance_of type_check obj (some type) = type_check obj type

abbrev pub settle_repr : Python → Ptr → Result Bytes × World → Ptr × World
settle_repr P error_type (ok text, w) = P.unicode_from_string text w
settle_repr P error_type (throw (cast_error what), w) =
    P.unicode_from_string (codes "<uninitialized>") w
settle_repr P error_type (throw error_already_set, w) = set_cpp_error error_type error_already_set w
settle_repr P error_type (throw bad_alloc, w) = set_cpp_error error_type bad_alloc w
settle_repr P error_type (throw (std_exception what), w) =
    set_cpp_error error_type (std_exception what) w
settle_repr P error_type (throw non_standard, w) = set_cpp_error error_type non_standard w

abbrev pub answer : Singletons → Bool → World → Ptr × World
answer S result = new_reference (if result then S.true_object else S.false_object)

abbrev pub settle_compare : Singletons → Ptr → (Bool → Bool) → Result Bool × World → Ptr × World
settle_compare S error_type adjust (ok equal, w) = answer S (adjust equal) w
settle_compare S error_type adjust (throw (cast_error what), w) = new_reference S.not_implemented w
settle_compare S error_type adjust (throw error_already_set, w) =
    set_cpp_error error_type error_already_set w
settle_compare S error_type adjust (throw bad_alloc, w) = set_cpp_error error_type bad_alloc w
settle_compare S error_type adjust (throw (std_exception what), w) =
    set_cpp_error error_type (std_exception what) w
settle_compare S error_type adjust (throw non_standard, w) = set_cpp_error error_type non_standard w

abbrev pub settle_hash : Ptr → Result ℕ × World → ℤ × World
settle_hash error_type (ok h, w) = (avoid_error_value (as_hash h), w)
settle_hash error_type (throw e, w) = (negsuc 0, (set_cpp_error error_type e w).1)

module _ {T : Type 0} where
  abbrev pub is_instance : Instances T → ℕ → Bool
  is_instance I obj = is_instance_of I.type_check obj I.class_type

  abbrev pub held_or_throw : Bytes → Option T → Py T
  held_or_throw name none = raise (cast_error (codes "uninitialized " ++ name))
  held_or_throw name (some value) = pure value

  unfoldable pub class_unwrap : Instances T → ℕ → Py T
  class_unwrap I obj =
      if is_instance I obj
      then held_or_throw I.class_name (I.held obj)
      else raise (cast_error (codes "expected a " ++ I.class_name))

  -- `held = value` for the object at `obj`.
  unfoldable pub hold : ℕ → T → Instances T → Instances T
  hold obj value I = record I { held = λ o. if o == obj then some value else I.held o }

  -- class_wrap; `has_memory` is whether `new (std::nothrow)` succeeds.
  abbrev pub wrapped : Bool → T → Instances T → Ptr × World → Ptr × Instances T × World
  wrapped has_memory value I (none, w) = (none, I, w)
  wrapped true value I (some obj, w) = (some obj, hold obj value I, w)
  wrapped false value I (some obj, w) = let (r, w') = no_memory (decref obj w) in (r, I, w')

  unfoldable pub class_wrap :
      (ℕ → World → Ptr × World) → Bool → T → Instances T → World → Ptr × Instances T × World
  unfolding hold
  class_wrap generic_alloc has_memory value I w = elim I.class_type [
    | none ↦ (none, I, set_error (system_error (codes "wrapped type not registered")) w)
    | some type ↦ wrapped has_memory value I (generic_alloc type w)
  ]

  -- The caster that SCIFORGE_WRAPPED makes of a type.
  abbrev pub wrapped_from_python : Instances T → ℕ → Py T
  wrapped_from_python I obj = class_unwrap I obj

  abbrev pub wrapped_to_python :
      (ℕ → World → Ptr × World) → Bool → T → Instances T → World → Ptr × Instances T × World
  wrapped_to_python generic_alloc has_memory value I w =
      class_wrap generic_alloc has_memory value I w

  -- detail::invoke_method: the items of the argument tuple, behind the instance.
  abbrev pub invoke_method : {V : Type 0} → Python → (T → CppFunction V) → T → List ℕ → Py Ptr
  invoke_method P f self args = invoke P (f self) args

  -- call_method of a function whose parameters behind the instance are those of `f value`.
  unfoldable pub call_method :
      {V : Type 0}
      → Python
      → Ptr
      → ℕ
      → (T → CppFunction V)
      → Instances T
      → ℕ
      → List ℕ
      → World
      → Ptr × World
  unfolding class_unwrap invoke
  call_method P error_type params f I self args w = settle error_type (
      (if length args == params
          then (class_unwrap I self >>= λ value. invoke_method P f value args)
          else wrong_count params (length args))
        w)

  unfoldable pub property_getter : Ptr → (T → Py Ptr) → Instances T → ℕ → World → Ptr × World
  unfolding class_unwrap
  property_getter error_type get I self w = settle error_type ((class_unwrap I self >>= get) w)

  unfoldable pub class_repr : Python → Ptr → (T → Py Bytes) → Instances T → ℕ → World → Ptr × World
  unfolding class_unwrap
  class_repr P error_type repr I self w =
      settle_repr P error_type ((class_unwrap I self >>= repr) w)

  abbrev pub compared : (T → T → Py Bool) → Instances T → ℕ → ℕ → Py Bool
  compared eq_of I self other = class_unwrap I self >>= λ a. class_unwrap I other >>= λ b. eq_of a b

  abbrev pub compare_instances :
      Singletons
      → Ptr
      → (T → T → Py Bool)
      → (Bool → Bool)
      → Instances T
      → ℕ
      → ℕ
      → World
      → Ptr × World
  compare_instances S error_type eq_of adjust I self other w =
      if is_instance I other
      then settle_compare S error_type adjust (compared eq_of I self other w)
      else new_reference S.not_implemented w

  unfoldable pub class_richcompare :
      Singletons → Ptr → (T → T → Py Bool) → Instances T → ℕ → ℕ → CompareOp → World → Ptr × World
  unfolding class_unwrap set_cpp_error
  class_richcompare S error_type eq_of I self other eq w =
      compare_instances S error_type eq_of (λ equal. equal) I self other w
  class_richcompare S error_type eq_of I self other ne w =
      compare_instances S error_type eq_of not I self other w
  class_richcompare S error_type eq_of I self other op w = new_reference S.not_implemented w

  unfoldable pub class_hash : Ptr → (T → Py ℕ) → Instances T → ℕ → World → ℤ × World
  unfolding class_unwrap set_cpp_error
  class_hash error_type hash I self w = settle_hash error_type ((class_unwrap I self >>= hash) w)

-- class_init; `has_memory` is whether `new T` succeeds.
module _ {T : Type 0} (error_type : Ptr) (has_memory : Bool) where
  abbrev pub init_made : Instances T → ℕ → Result T × World → ℤ × Instances T × World
  init_made I self (throw e, w) = (negsuc 0, I, translate error_type e w)
  init_made I self (ok value, w) =
      if has_memory
      then (pos 0, hold self value I, w)
      else (negsuc 0, I, translate error_type bad_alloc w)

  abbrev pub init_filled :
      {V : Type 0} → Factory V T → Instances T → ℕ → Filled → World → ℤ × Instances T × World
  init_filled f I self (filled os) w =
      init_made (f.within os w I) self ((extract f.casters os >>= f.make) w)
  init_filled f I self default_missing w = (negsuc 0, I, (no_memory w).1)
  init_filled f I self past_end w = (negsuc 0, I, w)

  abbrev pub init_parsed :
      {V : Type 0}
      → Factory V T
      → KwSpec
      → Instances T
      → ℕ
      → Option (List Ptr) × World
      → ℤ × Instances T × World
  init_parsed f spec I self (none, w) = (negsuc 0, I, w)
  init_parsed f spec I self (some objs, w) =
      init_filled f I self (fill_defaults objs spec.defaults) w

  unfoldable pub class_init :
      {V Call : Type 0}
      → Parser Call
      → Factory V T
      → KwSpec
      → Instances T
      → ℕ
      → Call
      → World
      → ℤ × Instances T × World
  unfolding fill_defaults extract hold translate
  class_init parse f spec I self call w = elim (I.held self) [
    | some value ↦
        (negsuc 0, I, set_error (type_error (I.class_name ++ codes " cannot be re-initialized")) w)
    | none ↦ init_parsed f spec I self (parse spec.format spec.kwlist call w)
  ]
