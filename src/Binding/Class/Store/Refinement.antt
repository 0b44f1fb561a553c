-- ===== src/Binding/Class/Store/Refinement.antt =====
-- Any program on the objects of a wrapped type of include/sciforge/binding/class.hpp: its memory
-- implements the abstract store.
use sciforge.Base.{ℕ, ◌≡◌, refl, ap, ◌∙◌, none, some}
use sciforge.Binding.Python.{Ptr}
use sciforge.Binding.Class.Store.{
  Heap, class_dealloc, Step, allocates, inits, wraps, writes, frees, Reach, start, then_step,
  empty_heap,
}
use sciforge.Binding.Class.Store.Owned.{IsOwned, allocate-IsOwned}
use sciforge.Binding.Class.Store.Freed.{class_dealloc-IsOwned, reach-IsOwned, empty-IsOwned}
use sciforge.Binding.Class.Store.Abstract.{
  view, after, after_all, event_of, events_of, allocate-view, init_held-view, wrap_held-view,
  write_through-view, class_dealloc-view,
}

module _ {T : Type 0} where
  step-view :
      {s s' : Heap T} (one : Step s s') → IsOwned s → view s' ≡ after (event_of one) (view s)
  step-view (allocates s obj fresh) h = allocate-view s obj
  step-view (inits s obj held made e fresh) h = init_held-view s obj held made e fresh h
  step-view (wraps s obj cell value free fresh) h =
      wrap_held-view s obj cell value fresh (allocate-IsOwned s obj free h)
  step-view (writes s obj change) h = write_through-view s obj change h
  step-view (frees s s' obj held e freed) h = class_dealloc-view s s' obj held e freed h

  -- After any steps of a program from the empty heap -- objects allocated, constructed by class_init any
  -- number of times, made by class_wrap, written by methods, freed, in any order -- the memory is as if
  -- each object held its value by value and nothing else were there. In that view a construction gives a
  -- value to an object that holds none, and is refused by one that holds a value. No two objects share a
  -- cell, no pointer dangles, and no cell is left without an owner; and class_dealloc of any object that
  -- is still live deletes a live cell or none. The allocators give addresses that are not in use, and
  -- nothing constructs an object between the test and the store of its own class_init.
  pub reach-view :
      {s : Heap T} (run : Reach empty_heap s)
      → (view s ≡ after_all (events_of run) (λ obj. none))
        × IsOwned s
        × ((obj : ℕ) (held : Ptr)
            → s.objects obj ≡ some held
            → (s' : Heap T) × (class_dealloc obj held s ≡ some s'))
  reach-view run =
      let owned = reach-IsOwned run empty-IsOwned in
      (
        reach_view run,
        owned,
        λ obj held e.
            let (s', freed, rest) = class_dealloc-IsOwned _ obj held e owned in (s', freed),
      )
    where
      reach_view :
          {t : Heap T} (r : Reach empty_heap t) → view t ≡ after_all (events_of r) (λ obj. none)
      reach_view start = refl
      reach_view (then_step before one) =
          step-view one (reach-IsOwned before empty-IsOwned)
          ∙ ap (after (event_of one)) (reach_view before)
