-- ===== src/Binding/Gil/Tests.antt =====
-- The guards of include/sciforge/binding/gil.hpp over a small model of the threads.
use sciforge.Base.{◌≡◌, refl, true, false, codes, none, some}
use sciforge.Cpp.{ok, throw, std_exception}
use sciforge.Binding.Python.{Ptr}
use sciforge.Binding.Gil.{Threads}
use sciforge.Binding.Gil.Scopes.{
  SavesThreads, Code, calls_python, stays_outside, guarded, in_order, run_code, run_code-Has,
}
use sciforge.Binding.Fixtures.{idle}

-- The current thread state, `none` while the GIL is given up.
abbrev threads : Threads Ptr
threads = record { save_thread = λ g. (g, none); restore_thread = λ t g. some t }

threads-SavesThreads : SavesThreads threads (λ t g. g ≡ some t) (λ t g. g ≡ none)
threads-SavesThreads = record { saves = λ t g h. (h, refl); restores = λ t g h. refl }

-- Code that throws while the GIL is released.
abbrev throwing : Code Ptr
throwing = in_order (calls_python (λ s. (ok tt, s))) (
    guarded true (guarded false (stays_outside (λ s. (throw (std_exception (codes "thrown")), s)))))

run_code-Has_example : (run_code threads throwing (some 7, idle)).1.0 ≡ some 7
run_code-Has_example =
    run_code-Has threads (λ t g. g ≡ some t) (λ t g. g ≡ none) threads-SavesThreads true throwing 7
      (some 7, idle) ((refl, λ t s h. h), (refl, ((λ t s h. h), λ t s h. h))) refl
