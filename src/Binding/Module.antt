-- ===== src/Binding/Module.antt =====
-- include/sciforge/binding/module.hpp: module_builder, and the PyInit function that SCIFORGE_MODULE
-- defines. The body of a module is its statements on the builder, in order.
pub mod Errors
pub mod Imports
pub mod Claimed
pub mod Conflicts
pub mod Complete
pub mod Given
pub mod Settled
pub mod Called
pub mod Calls
pub mod Constructed
pub mod Constructs
pub mod Table
pub mod Ledger
pub mod Factories
pub mod Types
pub mod References
pub mod Defaults
pub mod Leaks
pub mod Sequences
mod Tests
mod CallTests
mod ConstructTests
use sciforge.Base.{
  ℕ, suc, Bytes, Bool, true, false, List, [], ◌∷◌, ◌++◌, Option, none, some, ◌==◌, if◌then◌else◌,
}
use sciforge.Cpp.{Exn, Result, ok, throw}
use sciforge.Binding.Python.{Ptr, PyError, World, Python, MakesObject, set_error, decref, occurred}
use sciforge.Binding.Error.{set_cpp_error, register_error}
use sciforge.Binding.Dispatch.{MethodFlags, MethodDef, own, positional_def, keyword_def}
use sciforge.Binding.Keywords.{ArgSpec, SpecStore, register_func}
use sciforge.Binding.Class.Builder.{Registry, BuilderCall, Slot, build_class}

-- The functions of CPython that an import calls; those that give a Bool answer whether they failed.
-- `set_gil` is there only on a build of CPython that runs without the GIL.
-- `methods_fit` and `getsets_fit` are whether memory for the NULL of a type's tables is there.
pub record Importer : Type 0 where
  pub module_create : World → Ptr × World
  pub set_gil : Option (ℕ → World → Bool × World)
  pub new_exception : Bytes → Ptr → World → Ptr × World
  pub add_object_ref : ℕ → Bytes → ℕ → World → Bool × World
  pub type_from_spec : Bytes → Bool → List Slot → World → Ptr × World
  pub add_functions : ℕ → List (Option MethodDef) → World → Bool × World
  pub methods_fit : Bool
  pub getsets_fit : Bool

-- The variables that outlive an import: `registration_epoch`, the module's error type and method
-- table, the keyword spec of each function and the registry of each wrapped type.
pub record Statics : Type 0 where
  pub epoch : ℕ
  pub error_storage : Ptr
  pub table : List (Option MethodDef)
  pub specs : SpecStore
  pub types : ℕ → Registry

abbrev pub Session : Type 0
Session = Statics × World

-- A statement of the body: the member functions of module_builder, or an exception.
pub data Statement : Type 0 where
  def : Bytes → Statement
  def_kw : (func : ℕ) → Bytes → List ArgSpec → Statement
  raw : Bytes → MethodFlags → Statement
  wrap : (wrapped : ℕ) → Bytes → List BuilderCall → Statement
  throws : Exn → Statement

abbrev pub raw_def : Bytes → MethodFlags → MethodDef
raw_def name flags = record { ml_name = name; ml_meth = own; ml_flags = flags }

abbrev pub push_entry : MethodDef → Statics → Statics
push_entry entry st = record st { table = st.table ++ some entry ∷ [] }

abbrev pub store_type : ℕ → Registry → (ℕ → Registry) → ℕ → Registry
store_type wrapped r types other = if other == wrapped then r else types other

module _ (I : Importer) (P : Python) where
  abbrev pub build_type :
      ℕ → ℕ → Bytes → List BuilderCall → Registry → SpecStore → World → Registry × SpecStore × World
  build_type mod_object =
      build_class I.type_from_spec (I.add_object_ref mod_object) I.methods_fit I.getsets_fit P

  abbrev pub with_specs : MethodDef → Statics → SpecStore × World → Session
  with_specs entry st (specs, w) = (push_entry entry (record st { specs = specs }), w)

  abbrev pub with_type : ℕ → Statics → Registry × SpecStore × World → Session
  with_type wrapped st (r, specs, w) =
      (record st { specs = specs; types = store_type wrapped r st.types }, w)

  unfoldable pub run_statement : ℕ → Statement → Session → Result (Unit {0}) × Session
  unfolding register_func build_class
  run_statement mod_object (def name) (st, w) = (ok tt, (push_entry (positional_def name) st, w))
  run_statement mod_object (raw name flags) (st, w) =
      (ok tt, (push_entry (raw_def name flags) st, w))
  run_statement mod_object (def_kw func name args) (st, w) = (
    ok tt,
    with_specs (keyword_def func name) st (register_func P st.epoch func name args st.specs w),
  )
  run_statement mod_object (wrap wrapped name calls) (st, w) = (
    ok tt,
    with_type wrapped st (build_type mod_object st.epoch name calls (st.types wrapped) st.specs w),
  )
  run_statement mod_object (throws e) s = (throw e, s)

  abbrev pub go_on :
      Result (Unit {0}) × Session
      → (Session → Result (Unit {0}) × Session)
      → Result (Unit {0}) × Session
  go_on (ok u, s) rest = rest s
  go_on (throw e, s) rest = (throw e, s)

  -- sciforge_module_register.
  unfoldable pub run_body : ℕ → List Statement → Session → Result (Unit {0}) × Session
  unfolding run_statement
  run_body mod_object [] s = (ok tt, s)
  run_body mod_object (x ∷ xs) s = go_on (run_statement mod_object x s) (run_body mod_object xs)

  abbrev pub end_table : Statics → Statics
  end_table st = record st { table = st.table ++ none ∷ [] }

  abbrev pub table_added : ℕ → Statics → Bool × World → Ptr × Session
  table_added mod_object st (true, w) = (none, (st, decref mod_object w))
  table_added mod_object st (false, w) = (some mod_object, (st, w))

  -- Behind the try block.
  abbrev pub body_ended : ℕ → ℕ → Result (Unit {0}) × Session → Ptr × Session
  body_ended mod_object error_type (throw e, (st, w)) =
      (none, (st, decref mod_object (set_cpp_error (some error_type) e w).1))
  body_ended mod_object error_type (ok u, (st, w)) =
      if occurred w
      then (none, (st, decref mod_object w))
      else table_added mod_object (end_table st) (I.add_functions mod_object (end_table st).table w)

  abbrev pub begin_import : ℕ → Statics → Statics
  begin_import error_type st = record st {
    epoch = suc st.epoch;
    error_storage = some error_type;
    table = [];
  }

  abbrev pub error_registered : ℕ → List Statement → Statics → Ptr × World → Ptr × Session
  error_registered mod_object body st (none, w) =
      (none, (record st { error_storage = none }, decref mod_object w))
  error_registered mod_object body st (some error_type, w) =
      body_ended mod_object error_type (run_body mod_object body (begin_import error_type st, w))

  -- SCIFORGE_BINDING_NO_GIL, which looks at no answer.
  unfoldable pub declare_no_gil : ℕ → World → World
  declare_no_gil mod_object w = elim I.set_gil [ none ↦ w | some set ↦ (set mod_object w).1 ]

  abbrev pub module_created : Bytes → List Statement → Statics → Ptr × World → Ptr × Session
  module_created error_name body st (none, w) = (none, (st, w))
  module_created error_name body st (some mod_object, w) = error_registered mod_object body st (
      register_error I.new_exception I.add_object_ref mod_object error_name none
        (declare_no_gil mod_object w))

  unfoldable pub py_init : Bytes → List Statement → Statics → World → Ptr × Session
  unfolding run_body register_error set_cpp_error declare_no_gil
  py_init error_name body st w = module_created error_name body st (I.module_create w)
