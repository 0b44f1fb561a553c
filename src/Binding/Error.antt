-- ===== src/Binding/Error.antt =====
-- include/sciforge/binding/error.hpp: the bridge from C++ exceptions to Python's error indicator.
use sciforge.Base.{ℕ, Bytes, codes, Bool, [], ◌∷◌, Option, none, some, ◌==◌, if◌then◌else◌}
use sciforge.Cpp.{Exn, cast_error, error_already_set, bad_alloc, std_exception, non_standard}
use sciforge.Binding.Python.{Ptr, World, type_error, memory_error, module_error, set_error, decref}

-- set_cpp_error, with the exception in flight: a null pointer, and the error that stands.
unfoldable pub set_cpp_error : Ptr → Exn → World → Ptr × World
set_cpp_error error_type error_already_set w = (none, w)
set_cpp_error error_type bad_alloc w = (none, set_error memory_error w)
set_cpp_error error_type (cast_error what) w = (none, set_error (module_error error_type what) w)
set_cpp_error error_type (std_exception what) w = (none, set_error (module_error error_type what) w)
set_cpp_error error_type non_standard w =
    (none, set_error (module_error error_type (codes "internal error")) w)

-- The two catch clauses that close every generated entry point: a cast_error becomes a TypeError.
unfoldable pub translate : Ptr → Exn → World → World
unfolding set_cpp_error
translate error_type (cast_error what) w = set_error (type_error what) w
translate error_type error_already_set w = (set_cpp_error error_type error_already_set w).1
translate error_type bad_alloc w = (set_cpp_error error_type bad_alloc w).1
translate error_type (std_exception what) w = (set_cpp_error error_type (std_exception what) w).1
translate error_type non_standard w = (set_cpp_error error_type non_standard w).1

-- `strrchr(name, '.')`, one further on: the component behind the last dot, if there is a dot.
unfoldable pub behind_last_dot : Bytes → Option Bytes
behind_last_dot [] = none
behind_last_dot (c ∷ s) = elim (behind_last_dot s) [
  | some t ↦ some t
  | none ↦ if c == b'.' then some s else none
]

unfoldable pub attribute_name : Bytes → Bytes
unfolding behind_last_dot
attribute_name name = elim (behind_last_dot name) [ some t ↦ t | none ↦ name ]

-- register_error; PyErr_NewException and PyModule_AddObjectRef are CPython's, and the second answers
-- whether it failed.
module _ (new_exception : Bytes → Ptr → World → Ptr × World)
    (add_object_ref : ℕ → Bytes → ℕ → World → Bool × World) where
  abbrev attach : ℕ → Bytes → Ptr × World → Ptr × World
  attach mod_object name (none, w) = (none, w)
  attach mod_object name (some err, w) =
      let (failed, w') = add_object_ref mod_object (attribute_name name) err w in
      if failed then (none, decref err w') else (some err, w')

  unfoldable pub register_error : ℕ → Bytes → Ptr → World → Ptr × World
  register_error mod_object qualified_name base w =
      attach mod_object qualified_name (new_exception qualified_name base w)
