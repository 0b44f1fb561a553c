-- ===== src/Example/Handle/Tests.antt =====
-- The handle of examples/binding_consumer/bindingdemo/_demo.cpp in a small interpreter.
use sciforge.Base.{
  ℕ, ◌+◌, ◌-◌, ◌≡◌, ◌⊎◌, refl, Bytes, true, false, ◌∷◌, none, some, arith, leb, if◌then◌else◌,
  Bool-cases, inl, inr,
}
use sciforge.Base.Int.{ℤ, pos, negsuc}
use sciforge.Cpp.{throw, bad_alloc}
use sciforge.Binding.Python.{set_error, python_error}
use sciforge.Binding.Fixtures.{idle}
use sciforge.Example.Handle.{Capsules, Handles, make_handle, to_int}
use sciforge.Example.Handle.Lifetime.{KeepsPointers, Lives, Lost, make_handle-Ends}

-- 2 ^ 32 + 7 is cast to 7, and 2 ^ 31 to the least int.
to_int_test : to_int (pos 4294967303) ≡ pos 7
unfolding to_int
to_int_test = refl

to_int_least : to_int (pos 2147483648) ≡ negsuc 2147483647
unfolding to_int
to_int_least = refl

-- The capsule of a pointer is 100 behind it.
abbrev capsules : Capsules ℕ
capsules = record {
  capsule_new = λ p name s. (some (p + 100), (s.0, record (s.1) { owned = (p + 100) ∷ s.1.owned }));
  get_pointer = λ o name s.
      if leb 100 o then (some (o - 100), s) else (none, (s.0, set_error (python_error 3) s.1));
}

abbrev IsAt : ℕ → Bytes → ℕ → ℕ → Type 0
IsAt o name p g = o ≡ p + 100

capsules-KeepsPointers : KeepsPointers capsules IsAt
capsules-KeepsPointers = record {
  makes = λ p name g w. inl (p + 100, g, refl, refl);
  gets = λ o name p g w h.
      let high : leb 100 o ≡ true = ground (arith, h) in
      let back : o - 100 ≡ p = omega (arith, h) in rw (high, back) refl;
  refuses = λ o name g w none_there. elim (Bool-cases (leb 100 o)) [
    | inl high ↦ absurd (none_there (o - 100) (ground (arith, high)))
    | inr low ↦ (python_error 3, rw low refl)
  ];
}

abbrev no_handles : Handles
no_handles = record { next = 8; cell = λ a. none }

make_handle-Ends_example :
    let made =
      make_handle capsules true (λ (v : ℤ) s. (some v, s)) (negsuc 4) (no_handles, (0, idle)) in
    ((true ≡ true)
      × (Lives capsules (to_int (negsuc 4)) no_handles made
          ⊎ Lost (to_int (negsuc 4)) no_handles made))
    ⊎ ((true ≡ false) × (made ≡ (throw bad_alloc, no_handles, (0, idle))))
make_handle-Ends_example =
    make_handle-Ends capsules IsAt capsules-KeepsPointers (λ (v : ℤ) s. (some v, s)) true (negsuc 4)
      no_handles (0, idle) (0, idle) (negsuc 4) refl
