-- ===== src/Binding/Class/Store.antt =====
-- The values that the objects of a wrapped type of include/sciforge/binding/class.hpp own, as memory:
-- each object has a pointer, `held`, to a cell that `new` has given and class_dealloc deletes.
pub mod Owned
pub mod Freed
pub mod Abstract
pub mod Refinement
pub mod Initialized
mod Tests
use sciforge.Base.{ℕ, ◌≡◌, Bool, Option, none, some, ◌==◌, if◌then◌else◌}
use sciforge.Binding.Python.{Ptr}

-- The live objects with their pointers, and the live cells.
pub record Heap (T : Type 0) : Type 0 where
  pub objects : ℕ → Option Ptr
  pub cells : ℕ → Option T

abbrev pub set_at : {A : Type 0} → ℕ → A → (ℕ → A) → ℕ → A
set_at k v f other = if other == k then v else f other

module _ {T : Type 0} where
  -- An object fresh from PyType_GenericAlloc, its memory zeroed.
  abbrev pub allocate : ℕ → Heap T → Heap T
  allocate obj s = record s { objects = set_at obj (some none) s.objects }

  -- `held = new T(std::move(value))`, in the cell that `new` gives.
  abbrev pub hold_new : ℕ → ℕ → T → Heap T → Heap T
  hold_new obj cell value s = record s {
    objects = set_at obj (some (some cell)) s.objects;
    cells = set_at cell (some value) s.cells;
  }

  -- class_init of a live object, from its test of the pointer to its store. `made` is the cell that `new`
  -- gives and the value in it, `none` where the parser, a default, the factory or `new` fails.
  abbrev pub store_made : ℕ → Option (ℕ × T) → Heap T → Heap T
  store_made obj none s = s
  store_made obj (some (cell, value)) s = hold_new obj cell value s

  abbrev pub init_held : ℕ → Ptr → Option (ℕ × T) → Heap T → Heap T
  init_held obj (some cell) made s = s
  init_held obj none made s = store_made obj made s

  -- class_wrap that succeeds. One without memory for the value is an allocation and the end of the object.
  abbrev pub wrap_held : ℕ → ℕ → T → Heap T → Heap T
  wrap_held obj cell value s = hold_new obj cell value (allocate obj s)

  abbrev pub write_cell : ℕ → (T → T) → Option T → Heap T → Heap T
  write_cell cell change none s = s
  write_cell cell change (some value) s = record s {
    cells = set_at cell (some (change value)) s.cells;
  }

  abbrev pub write_held : Option Ptr → (T → T) → Heap T → Heap T
  write_held none change s = s
  write_held (some none) change s = s
  write_held (some (some cell)) change s = write_cell cell change (s.cells cell) s

  -- What a method does through the `T&` that class_unwrap gives it.
  unfoldable pub write_through : ℕ → (T → T) → Heap T → Heap T
  write_through obj change s = write_held (s.objects obj) change s

  -- `delete` of a null pointer does nothing; `none` is a delete of a cell that is not live.
  abbrev pub delete_live : ℕ → Option T → Heap T → Option (Heap T)
  delete_live cell none s = none
  delete_live cell (some value) s = some (record s { cells = set_at cell none s.cells })

  abbrev pub delete_held : Ptr → Heap T → Option (Heap T)
  delete_held none s = some s
  delete_held (some cell) s = delete_live cell (s.cells cell) s

  abbrev pub free_object : ℕ → Option (Heap T) → Option (Heap T)
  free_object obj none = none
  free_object obj (some s) = some (record s { objects = set_at obj none s.objects })

  -- class_dealloc of a live object. The reference to its type, which PyType_GenericAlloc took for it, is
  -- not counted.
  unfoldable pub class_dealloc : ℕ → Ptr → Heap T → Option (Heap T)
  class_dealloc obj held s = free_object obj (delete_held held s)

-- `new` gives an address with no live cell.
abbrev pub IsFresh : {T : Type 0} → Option (ℕ × T) → Heap T → Type 0
IsFresh none s = Unit
IsFresh (some (cell, value)) s = s.cells cell ≡ none

-- The steps of a program on the objects of the type. PyType_GenericAlloc gives an address with no live
-- object. A class_init is one step: what runs within it comes before it, which its test cannot tell
-- from after as long as it does not construct the same object.
pub data Step {T : Type 0} : Heap T → Heap T → Type 0 where
  allocates : (s : Heap T) (obj : ℕ) → s.objects obj ≡ none → Step s (allocate obj s)
  inits :
      (s : Heap T) (obj : ℕ) (held : Ptr) (made : Option (ℕ × T))
      → s.objects obj ≡ some held
      → IsFresh made s
      → Step s (init_held obj held made s)
  wraps :
      (s : Heap T) (obj cell : ℕ) (value : T)
      → s.objects obj ≡ none
      → s.cells cell ≡ none
      → Step s (wrap_held obj cell value s)
  writes : (s : Heap T) (obj : ℕ) (change : T → T) → Step s (write_through obj change s)
  frees :
      (s s' : Heap T) (obj : ℕ) (held : Ptr)
      → s.objects obj ≡ some held
      → class_dealloc obj held s ≡ some s'
      → Step s s'

pub data Reach {T : Type 0} (s : Heap T) : Heap T → Type 0 where
  start : Reach s s
  then_step : {t u : Heap T} → Reach s t → Step t u → Reach s u

abbrev pub empty_heap : {T : Type 0} → Heap T
empty_heap = record { objects = λ obj. none; cells = λ cell. none }
