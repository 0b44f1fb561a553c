-- ===== src/Binding/Class/Builder.antt =====
-- class_ of include/sciforge/binding/class.hpp: the builder that collects a type's methods, properties and
-- slots, and registers the type when it is finished. What its tables hold is seen by the entries' names.
pub mod Registered
pub mod Room
use sciforge.Base.{
  ℕ, Bytes, Bool, true, false, List, [], ◌∷◌, ◌++◌, Option, none, some, if◌then◌else◌,
}
use sciforge.Binding.Python.{Ptr, World, Python, set_error, decref, memory_error}
use sciforge.Binding.Error.{attribute_name}
use sciforge.Binding.Dispatch.{MethodFlags, var_args, method, own, MethodDef}
use sciforge.Binding.Keywords.{ArgSpec, SpecStore, register_func}

-- A PyGetSetDef: the name, and whether it has a setter.
pub record GetSetDef : Type 0 where
  pub gs_name : Bytes
  pub settable : Bool

-- The statics of a wrapped type. The NULL entry that ends a table is `none`.
pub record Registry : Type 0 where
  pub class_type : Ptr
  pub class_name : Bytes
  pub methods : List (Option MethodDef)
  pub getsets : List (Option GetSetDef)

-- The members of class_: whether each of the four slots is set.
pub record Slots : Type 0 where
  pub init : Bool
  pub repr : Bool
  pub richcompare : Bool
  pub hash : Bool

pub data BuilderCall : Type 0 where
  def : Bytes → BuilderCall
  def_prop_ro : Bytes → BuilderCall
  def_repr def_richcompare def_hash init_once : BuilderCall
  raw : Bytes → MethodFlags → BuilderCall
  def_init : (factory : ℕ) → List ArgSpec → BuilderCall

pub data Slot : Type 0 where
  tp_dealloc tp_methods tp_getset tp_repr tp_richcompare tp_hash tp_new tp_init slots_end : Slot

abbrev pub no_slots : Slots
no_slots = record { init = false; repr = false; richcompare = false; hash = false }

abbrev pub is_registered : Registry → Bool
is_registered r = elim r.class_type [ none ↦ false | some type ↦ true ]

-- The constructor.
unfoldable pub start_class : Bytes → Registry → Registry
start_class qualified_name r =
    if is_registered r
    then r
    else record r { class_name = qualified_name; methods = []; getsets = [] }

-- The builder with the statics that it writes, the keyword specs of all functions, and the interpreter.
pub record Building : Type 0 where
  pub slots : Slots
  pub registry : Registry
  pub specs : SpecStore
  pub world : World

abbrev pub start_building : Registry → SpecStore → World → Building
start_building r specs w = record { slots = no_slots; registry = r; specs = specs; world = w }

-- The entries that the member functions push.
abbrev pub method_def : Bytes → MethodDef
method_def name = record { ml_name = name; ml_meth = method; ml_flags = var_args }

abbrev pub raw_method : Bytes → MethodFlags → MethodDef
raw_method name flags = record { ml_name = name; ml_meth = own; ml_flags = flags }

abbrev pub read_only : Bytes → GetSetDef
read_only name = record { gs_name = name; settable = false }

abbrev pub add_method : MethodDef → Building → Building
add_method entry b = record b {
  registry = record b.registry { methods = b.registry.methods ++ some entry ∷ [] };
}

abbrev pub add_getset : GetSetDef → Building → Building
add_getset entry b = record b {
  registry = record b.registry { getsets = b.registry.getsets ++ some entry ∷ [] };
}

abbrev pub init_with : Building → SpecStore × World → Building
init_with b (specs, w) = record b {
  slots = record b.slots { init = true };
  specs = specs;
  world = w;
}

-- One member function of the builder, where the type is not registered yet.
unfoldable pub collect_call : Python → ℕ → BuilderCall → Building → Building
unfolding register_func
collect_call P registration_epoch (def name) b = add_method (method_def name) b
collect_call P registration_epoch (raw name flags) b = add_method (raw_method name flags) b
collect_call P registration_epoch (def_prop_ro name) b = add_getset (read_only name) b
collect_call P registration_epoch def_repr b = record b { slots = record b.slots { repr = true } }
collect_call P registration_epoch def_richcompare b = record b {
  slots = record b.slots { richcompare = true };
}
collect_call P registration_epoch def_hash b = record b { slots = record b.slots { hash = true } }
collect_call P registration_epoch init_once b = b
collect_call P registration_epoch (def_init factory args) b =
    init_with b
      (register_func P registration_epoch factory b.registry.class_name args b.specs b.world)

-- Every member function does nothing once the type is registered.
unfoldable pub builder_call : Python → ℕ → BuilderCall → Building → Building
unfolding collect_call
builder_call P registration_epoch call b =
    if is_registered b.registry then b else collect_call P registration_epoch call b

unfoldable pub builder_calls : Python → ℕ → List BuilderCall → Building → Building
unfolding builder_call
builder_calls P registration_epoch [] b = b
builder_calls P registration_epoch (c ∷ cs) b =
    builder_calls P registration_epoch cs (builder_call P registration_epoch c b)

abbrev pub slot_if : Bool → Slot → List Slot
slot_if given slot = if given then slot ∷ [] else []

-- The array `slots` up to its terminator.
unfoldable pub slots_of : Slots → List Slot
slots_of s =
    tp_dealloc
    ∷ tp_methods
    ∷ tp_getset
    ∷ (slot_if s.repr tp_repr
        ++ (slot_if s.richcompare tp_richcompare
            ++ (slot_if s.hash tp_hash
                ++ ((if s.init then tp_new ∷ tp_init ∷ [] else []) ++ slots_end ∷ []))))

-- PyType_FromSpec over the name, whether Python may construct instances, and the slots;
-- PyModule_AddObjectRef answers whether it failed; `methods_fit` and `getsets_fit` are
-- whether memory for the NULL of each table is there.
module _ (type_from_spec : Bytes → Bool → List Slot → World → Ptr × World)
    (add_object_ref : Bytes → ℕ → World → Bool × World) (methods_fit getsets_fit : Bool) where
  abbrev pub add_type : Registry → Ptr × World → Registry × World
  add_type r (none, w) = (r, w)
  add_type r (some type, w) =
      let (failed, w') = add_object_ref (attribute_name r.class_name) type w in
      if failed
      then (record r { class_type = none }, decref type w')
      else (record r { class_type = some type }, w')

  abbrev pub end_tables : Registry → Registry
  end_tables r = record r { methods = r.methods ++ none ∷ []; getsets = r.getsets ++ none ∷ [] }

  abbrev pub create_type : Slots → Registry → World → Registry × World
  create_type s r w =
      if methods_fit
      then (if getsets_fit
          then add_type (end_tables r) (type_from_spec r.class_name s.init (slots_of s) w)
          else (record r { methods = r.methods ++ none ∷ [] }, set_error memory_error w))
      else (r, set_error memory_error w)

  unfoldable pub finish_class : Slots → Registry → World → Registry × World
  unfolding slots_of attribute_name
  finish_class s r w = elim r.class_type [
    | some type ↦ (r, (add_object_ref (attribute_name r.class_name) type w).1)
    | none ↦ create_type s r w
  ]

  abbrev pub finished : Building → Registry × SpecStore × World
  finished b = let (r, w) = finish_class b.slots b.registry b.world in (r, b.specs, w)

  -- `m.type<T>(name)` with the member functions called on it, up to the end of the expression.
  unfoldable pub build_class :
      Python
      → ℕ
      → Bytes
      → List BuilderCall
      → Registry
      → SpecStore
      → World
      → Registry × SpecStore × World
  unfolding start_class builder_calls finish_class
  build_class P registration_epoch qualified_name calls r specs w = finished (
      builder_calls P registration_epoch calls
        (start_building (start_class qualified_name r) specs w))
