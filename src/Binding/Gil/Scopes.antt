-- ===== src/Binding/Gil/Scopes.antt =====
-- The guards of include/sciforge/binding/gil.hpp, nested and in sequence.
use sciforge.Base.{ℕ, ◌≡◌, refl, Bool, true, false, some}
use sciforge.Cpp.{Result, ok, throw}
use sciforge.Binding.Python.{World}
use sciforge.Binding.Gil.{Threads, Run, construct, destroy, scoped_gil_release}

-- What CPython documents of the two: a thread that holds the GIL gives it up and gets its thread state,
-- which is not null, and with that state takes it again. `Holds t` and `Lacks t` are that the thread of
-- the state `t` holds the GIL, and that it has given it up.
pub record SavesThreads {G : Type 0} (T : Threads G) (Holds Lacks : ℕ → G → Type 0) : Type 0 where
  pub saves :
      (t : ℕ) (g : G) → Holds t g → ((T.save_thread g).0 ≡ some t) × Lacks t (T.save_thread g).1
  pub restores : (t : ℕ) (g : G) → Lacks t g → Holds t (T.restore_thread t g)

-- Code with guards in it: calls of Python, code that does not call Python, a block with a guard in
-- front, and one piece behind another.
pub data Code (G : Type 0) : Type 0 where
  calls_python : Run G (Unit {0}) → Code G
  stays_outside : Run G (Unit {0}) → Code G
  guarded : (above : Bool) → Code G → Code G
  in_order : Code G → Code G → Code G

module _ {G : Type 0} (T : Threads G) where
  abbrev continue_with :
      Result (Unit {0}) × (G × World) → Run G (Unit {0}) → Result (Unit {0}) × (G × World)
  continue_with (ok u, s) rest = rest s
  continue_with (throw e, s) rest = (throw e, s)

  unfoldable pub run_code : Code G → Run G (Unit {0})
  run_code (calls_python f) s = f s
  run_code (stays_outside f) s = f s
  run_code (guarded above c) s = scoped_gil_release T above (run_code c) s
  run_code (in_order c d) s = continue_with (run_code c s) (run_code d)

module _ {G : Type 0} (T : Threads G) (Holds Lacks : ℕ → G → Type 0) where
  abbrev pub Has : Bool → ℕ → G → Type 0
  Has true = Holds
  Has false = Lacks

  abbrev Keeps : (ℕ → G → Type 0) → Run G (Unit {0}) → Type 0
  Keeps Q f = (t : ℕ) (s : G × World) → Q t s.0 → Q t (f s).1.0

  -- Python is called only with the GIL, and released only by who holds it. `held` is whether it is held
  -- in front of the code.
  abbrev pub IsGuarded : (held : Bool) → Code G → Type 0
  IsGuarded held (calls_python f) = (held ≡ true) × Keeps Holds f
  IsGuarded held (stays_outside f) = Keeps Holds f × Keeps Lacks f
  IsGuarded held (guarded true c) = (held ≡ true) × IsGuarded false c
  IsGuarded held (guarded false c) = IsGuarded held c
  IsGuarded held (in_order c d) = IsGuarded held c × IsGuarded held d

  module _ (saves : SavesThreads T Holds Lacks) where
    -- A guard that releases: the block runs without the GIL, and the thread has it behind the block.
    pub released-Holds :
        {A : Type 0} (body : Run G A) (t : ℕ) (g : G) (w : World)
        → ((s : G × World) → Lacks t s.0 → Lacks t (body s).1.0)
        → Holds t g
        → Holds t (scoped_gil_release T true body (g, w)).1.0
    unfolding scoped_gil_release construct destroy
    released-Holds body t g w keeps h =
        let (state, lacks) = saves.saves t g h in
        rw state (
          saves.restores t (body ((T.save_thread g).1, w)).1.0
            (keeps ((T.save_thread g).1, w) lacks))

    -- A guard that does not release changes nothing.
    pub kept_scope :
        {A : Type 0} (body : Run G A) (s : G × World) → scoped_gil_release T false body s ≡ body s
    unfolding scoped_gil_release construct destroy
    kept_scope body s = refl

    continue_with-Has :
        (held : Bool) (t : ℕ) (one : Result (Unit {0}) × (G × World)) (rest : Run G (Unit {0}))
        → Has held t one.1.0
        → ((s : G × World) → Has held t s.0 → Has held t (rest s).1.0)
        → Has held t (continue_with T one rest).1.0
    continue_with-Has held t (ok u, s) rest h k = k s h
    continue_with-Has held t (throw e, s) rest h k = h

    -- Guards may stand in each other and one behind the other, and any piece of the code may throw: where
    -- Python is called, and the GIL given up, only by who holds it, the thread has the GIL behind the
    -- code if it had it in front, and lacks it if it lacked it. CPython's two functions do what it documents of them.
    pub run_code-Has :
        (held : Bool) (c : Code G) (t : ℕ) (s : G × World)
        → IsGuarded held c
        → Has held t s.0
        → Has held t (run_code T c s).1.0
    unfolding run_code
    run_code-Has held (calls_python f) t s h has = called held h.0 has
      where
        called : (b : Bool) → b ≡ true → Has b t s.0 → Has b t (f s).1.0
        called true e has' = h.1 t s has'
        called false e has' = cc
    run_code-Has true (stays_outside f) t s h has = h.0 t s has
    run_code-Has false (stays_outside f) t s h has = h.1 t s has
    run_code-Has true (guarded true c) t (g, w) h has =
        released-Holds (run_code T c) t g w (λ s. run_code-Has false c t s h.1) has
    run_code-Has false (guarded true c) t s h has = cc
    run_code-Has held (guarded false c) t s h has =
        rw (kept_scope (run_code T c) s) (run_code-Has held c t s h has)
    run_code-Has held (in_order c d) t s h has =
        continue_with-Has held t (run_code T c s) (run_code T d) (run_code-Has held c t s h.0 has)
          λ s'. run_code-Has held d t s' h.1
