-- ===== src/Binding/Gil.antt =====
-- include/sciforge/binding/gil.hpp: the guards that release the GIL for a block of code. What CPython
-- keeps of the threads is a type `G`; a block works on it and on the interpreter.
pub mod Scopes
mod Tests
use sciforge.Base.{ℕ, Bool, true, false, none, some, if◌then◌else◌}
use sciforge.Cpp.{Result}
use sciforge.Binding.Python.{Ptr, World}

-- PyEval_SaveThread and PyEval_RestoreThread; a thread state is its address.
pub record Threads (G : Type 0) : Type 0 where
  pub save_thread : G → Ptr × G
  pub restore_thread : ℕ → G → G

abbrev pub Run : Type 0 → Type 0 → Type 0
Run G A = G × World → Result A × (G × World)

module _ {G : Type 0} (T : Threads G) where
  -- The constructor of scoped_gil_release, which keeps the pointer, and the destructor.
  unfoldable pub construct : Bool → G → Ptr × G
  construct above g = if above then T.save_thread g else (none, g)

  unfoldable pub destroy : Ptr → G → G
  destroy none g = g
  destroy (some saved) g = T.restore_thread saved g

  -- A block with the guard in front: the destructor runs whether the rest returns or throws.
  unfoldable pub scoped_gil_release : {A : Type 0} → Bool → Run G A → Run G A
  unfolding construct destroy
  scoped_gil_release above body (g, w) =
      let (saved, g₁) = construct above g in
      let (r, (g₂, w')) = body (g₁, w) in (r, (destroy saved g₂, w'))

  unfoldable pub gil_release : {A : Type 0} → Run G A → Run G A
  unfolding scoped_gil_release
  gil_release body = scoped_gil_release true body
