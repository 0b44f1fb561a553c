-- ===== src/Binding/Module/Tests.antt =====
-- Imports through include/sciforge/binding/module.hpp over the small interpreter.
use sciforge.Base.{
  ℕ, ◌≡◌, ◌⊎◌, refl, codes, true, false, List, [], ◌∷◌, ◌++◌, none, some, arith, All, inl, length,
  ◌≤◌,
}
use sciforge.Binding.Python.{Ptr}
use sciforge.Binding.Dispatch.{no_args}
use sciforge.Binding.Convention.{KeepsConvention}
use sciforge.Binding.Keywords.{SpecStore, empty_spec}
use sciforge.Binding.Keywords.Claims.{count, count_ptrs}
use sciforge.Binding.Class.Builder.{method_def, raw_method, Registry, def_repr, def_init}
use sciforge.Binding.Module.{Importer, Statics, Session, Statement, def, def_kw, raw, wrap, py_init}
use sciforge.Binding.Module.Errors.{IsDocumented}
use sciforge.Binding.Module.Imports.{handed_over, py_init-KeepsConvention}
use sciforge.Binding.Module.Conflicts.{py_init_twice}
use sciforge.Binding.Module.Table.{function_entries, py_init-table}
use sciforge.Binding.Module.Complete.{IsRegistered}
use sciforge.Binding.Module.Given.{py_init-IsRegistered}
use sciforge.Binding.Module.Ledger.{held_refs, Owns, sum_below}
use sciforge.Binding.Module.Leaks.{EndsOwning, py_init-EndsOwning}
use sciforge.Binding.Module.References.{IsWithin}
use sciforge.Binding.Module.Sequences.{begin, import, Accounts, Imports-Accounts}
use sciforge.Binding.Fixtures.{
  interpreter, idle, new_object, new_object-MakesObject, interpreter-MakesDefaults, parameters,
}
use sciforge.Example.Demo.{demo_body, widget_class}
use sciforge.Example.Refused.{conflict_body, throwing_body}

-- The module is at 70, its error type at 80 and every new type at 90.
abbrev pub importer : Importer
importer = record {
  module_create = new_object 70;
  set_gil = some λ m w. (false, w);
  new_exception = λ name base. new_object 80;
  add_object_ref = λ m name o w. (false, w);
  type_from_spec = λ name b slots. new_object 90;
  add_functions = λ m table w. (false, w);
  methods_fit = true;
  getsets_fit = true;
}

pub importer-IsDocumented : IsDocumented importer
importer-IsDocumented = record {
  creates = new_object-MakesObject 70;
  sets_gil = λ m w. inl refl;
  excepts = λ name base. new_object-MakesObject 80;
  adds = λ m name o w. inl refl;
  types = λ name b slots. new_object-MakesObject 90;
  lists = λ m table w. inl refl;
}

abbrev no_type : Registry
no_type = record { class_type = none; class_name = codes "?"; methods = []; getsets = [] }

abbrev pub untouched : Statics
untouched = record {
  epoch = 0;
  error_storage = none;
  table = [];
  specs = λ func. empty_spec;
  types = λ wrapped. no_type;
}

abbrev small_body : List Statement
small_body =
    def (codes "one")
    ∷ def_kw 0 (codes "two") parameters
    ∷ wrap 0 (codes "m.Vec") (def_init 1 parameters ∷ def_repr ∷ [])
    ∷ raw (codes "three") no_args
    ∷ []

py_init-KeepsConvention_example :
    KeepsConvention
      (handed_over (py_init importer interpreter (codes "m.error") throwing_body untouched idle))
py_init-KeepsConvention_example =
    py_init-KeepsConvention importer importer-IsDocumented interpreter (codes "m.error")
      throwing_body untouched idle (tt, (tt, tt)) refl

py_init_twice_example :
    (handed_over (py_init importer interpreter (codes "m.error") conflict_body untouched idle)).0
    ≡ none
py_init_twice_example =
    py_init_twice importer importer-IsDocumented interpreter interpreter-MakesDefaults
      (codes "m.error") 0 (codes "add") (codes "add2") _ _ [] [] [] untouched idle

unfoldable pub imported :
    (m : ℕ) × (s : Session) × (py_init importer interpreter
        (codes "m.error")
        demo_body
        untouched
        idle
      ≡ (some m, s))
unfolding py_init sciforge.Binding.Keywords.claim_kw_spec sciforge.Binding.Keywords.add_args
imported = (70, _, refl)

py_init-table_example :
    (imported.1.0.table ≡ function_entries demo_body ++ none ∷ [])
    × (importer.add_functions imported.0 imported.1.0.table imported.1.1 ≡ (false, imported.1.1))
    × (imported.1.0.epoch ≡ 1)
py_init-table_example =
    py_init-table importer importer-IsDocumented interpreter (codes "m.error") demo_body untouched
      idle imported.0 imported.1.0 imported.1.1 imported.2

py_init-IsRegistered_example : All (IsRegistered imported.1.0) demo_body
py_init-IsRegistered_example =
    py_init-IsRegistered importer importer-IsDocumented interpreter interpreter-MakesDefaults
      (codes "m.error") demo_body untouched idle imported.0 imported.1.0 imported.1.1 imported.2

untouched-Owns : Owns (λ o. count o (9 ∷ [])) (held_refs 2 1 untouched) idle
unfolding count count_ptrs sum_below
untouched-Owns o = omega arith

untouched-Accounts :
    Accounts importer interpreter 2 1 (λ o. count o (9 ∷ [])) [] [] (untouched, idle)
unfolding count count_ptrs sum_below
untouched-Accounts o = omega arith

py_init-EndsOwning_example :
    (lost : Ptr) × ((lost ≡ none) ⊎ (lost ≡ none))
    × EndsOwning 2 1
        (λ o. count o (9 ∷ []))
        lost
        (py_init importer interpreter (codes "m.error") small_body untouched idle)
py_init-EndsOwning_example =
    py_init-EndsOwning importer importer-IsDocumented interpreter interpreter-MakesDefaults 2 1
      (codes "m.error") small_body untouched idle (λ o. count o (9 ∷ []))
      (tt, (omega arith, ((omega arith, (omega arith, (tt, tt))), (tt, tt)))) untouched-Owns

abbrev small_within : All (IsWithin 2 1) small_body
small_within = (tt, (omega arith, ((omega arith, (omega arith, (tt, tt))), (tt, tt))))

abbrev first_import : Ptr × Session
first_import = py_init importer interpreter (codes "m.error") small_body untouched idle

abbrev second_import : Ptr × Session
second_import =
    py_init importer interpreter (codes "m.error") small_body first_import.1.0 first_import.1.1

-- The same module is imported twice.
Imports-Accounts_example :
    (lost : List Ptr) × (length lost ≤ 2)
    × Accounts importer interpreter 2 1
        (λ o. count o (9 ∷ []))
        (second_import.0 ∷ first_import.0 ∷ [])
        lost
        second_import.1
Imports-Accounts_example =
    Imports-Accounts importer interpreter 2 1 importer-IsDocumented interpreter-MakesDefaults
      (untouched, idle) second_import.1 2 (second_import.0 ∷ first_import.0 ∷ [])
      (λ o. count o (9 ∷ [])) untouched-Accounts
      (import 1 (first_import.0 ∷ []) (codes "m.error") small_body first_import.1.0 first_import.1.1
        small_within (import 0 [] (codes "m.error") small_body untouched idle small_within begin))

-- The second registration of Widget adds no method.
widget_methods_test :
    (imported.1.0.types widget_class).methods
    ≡ some (method_def (codes "area")) ∷ some (raw_method (codes "describe") no_args) ∷ none ∷ []
unfolding imported
widget_methods_test = refl
