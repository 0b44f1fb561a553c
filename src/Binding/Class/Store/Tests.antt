-- ===== src/Binding/Class/Store/Tests.antt =====
-- The memory of a wrapped type of include/sciforge/binding/class.hpp over a short program.
use sciforge.Base.{ℕ, suc, ◌≡◌, refl, [], codes, ◌==◌, none, some}
use sciforge.Binding.Python.{Ptr, pure}
use sciforge.Binding.Class.{Instances, Factory}
use sciforge.Binding.Class.Store.{
  Heap, allocate, init_held, wrap_held, write_through, class_dealloc, allocates, inits, wraps,
  writes, frees, Reach, start, then_step, empty_heap,
}
use sciforge.Binding.Class.Store.Owned.{IsOwned}
use sciforge.Binding.Class.Store.Abstract.{view, after_all, events_of}
use sciforge.Binding.Class.Store.Refinement.{reach-view}

-- An object is allocated and constructed, a method changes its value, and a second construction of it is
-- refused; another one is made by class_wrap and freed.
abbrev written : Heap ℕ
written = write_through 70 suc (init_held 70 none (some (5, 3)) (allocate 70 empty_heap))

abbrev both_held : Heap ℕ
both_held = wrap_held 71 6 8 (init_held 70 (some 5) (some (6, 9)) written)

one_freed : (s : Heap ℕ) × (class_dealloc 71 (some 6) both_held ≡ some s)
unfolding write_through class_dealloc
one_freed = (_, refl)

program : Reach empty_heap one_freed.0
unfolding write_through class_dealloc
program =
    then_step
      (then_step
        (then_step
          (then_step
            (then_step (then_step start (allocates empty_heap 70 refl))
              (inits _ 70 none (some (5, 3)) refl refl))
            (writes _ 70 suc))
          (inits written 70 (some 5) (some (6, 9)) refl refl))
        (wraps written 71 6 8 refl refl))
      (frees both_held one_freed.0 71 (some 6) refl one_freed.1)

reach-view_example :
    (view one_freed.0 ≡ after_all (events_of program) (λ obj. none))
    × IsOwned one_freed.0
    × ((obj : ℕ) (held : Ptr)
        → one_freed.0.objects obj ≡ some held
        → (s' : Heap ℕ) × (class_dealloc obj held one_freed.0 ≡ some s'))
reach-view_example = reach-view program

-- A class whose constructor, of no parameters, gives 3.
abbrev three : Factory ℕ ℕ
three = record { casters = []; make = λ os. pure 3; within = λ os w I. I }

abbrev valueless : Instances ℕ
valueless = record {
  class_type = some 40;
  class_name = codes "Widget";
  type_check = λ obj type. (type == 40);
  held = λ o. none;
}
