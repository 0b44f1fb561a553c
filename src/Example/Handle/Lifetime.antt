-- ===== src/Example/Handle/Lifetime.antt =====
-- The handle of examples/binding_consumer/bindingdemo/_demo.cpp from its making to its end.
use sciforge.Base.{
  Bool, true, false, ◌∷◌, ℕ, ◌≡◌, ◌≢◌, ◌⊎◌, refl, Bytes, codes, Option, none, some, inl, inr, arith,
  ==_refl, ==_ne,
}
use sciforge.Base.Int.{ℤ, pos, negsuc}
use sciforge.Cpp.{Result, ok, throw, cast_error, bad_alloc}
use sciforge.Binding.Python.{Ptr, World, PyError, set_error, clear_error}
use sciforge.Binding.Convert.{i32}
use sciforge.Binding.Convert.Integers.{InRange}
use sciforge.Example.Handle.{
  to_int, capsule_name, Handles, Capsules, make_handle, handle_from_python, handle_destructor,
  handle_value,
}

-- What CPython documents of capsules. `Holds o name p g`: the object `o` is a capsule of that name with
-- the pointer `p`. A new capsule is owned by the caller, and leaves the others; PyCapsule_GetPointer
-- fails with an error on what is not a capsule of the name.
pub record KeepsPointers {G : Type 0} (C : Capsules G) (Holds : ℕ → Bytes → ℕ → G → Type 0)
    : Type 0 where
  pub makes :
      (p : ℕ) (name : Bytes) (g : G) (w : World)
      → ((o : ℕ) × (g' : G) × Holds o name p g'
          × (C.capsule_new p name (g, w) ≡ (some o, (g', record w { owned = o ∷ w.owned }))))
        ⊎ ((e : PyError) × (C.capsule_new p name (g, w) ≡ (none, (g, set_error e w))))
  pub gets :
      (o : ℕ) (name : Bytes) (p : ℕ) (g : G) (w : World)
      → Holds o name p g
      → C.get_pointer o name (g, w) ≡ (some p, (g, w))
  pub refuses :
      (o : ℕ) (name : Bytes) (g : G) (w : World)
      → ((p : ℕ) → ¬ (Holds o name p g))
      → (e : PyError) × (C.get_pointer o name (g, w) ≡ (none, (g, set_error e w)))

-- A long long that an int holds is cast to itself.
pub to_int-InRange : (v : ℤ) → InRange i32 v → to_int v ≡ v
unfolding to_int
to_int-InRange (pos n) h = ground (arith, h)
to_int-InRange (negsuc n) h = ground (arith, h)

module _ {G : Type 0} (C : Capsules G) where
  -- A capsule has been made of a new handle with the value `v`: the caster finds the handle in it, and the
  -- destructor frees that handle and no other.
  abbrev pub Lives : ℤ → Handles → Result Ptr × Handles × (G × World) → Type 0
  Lives v H (r, H', (g, w)) =
      (o : ℕ) × (p : ℕ) × (r ≡ ok (some o))
      × (handle_value H' p ≡ some v)
      × (handle_from_python C o (g, w) ≡ (ok p, (g, w)))
      × ((handle_destructor C o (H', (g, w))).0.cell p ≡ none)
      × ((a : ℕ) → a ≢ p → (handle_destructor C o (H', (g, w))).0.cell a ≡ H.cell a)

-- No capsule has been made; the new handle is there all the same.
abbrev pub Lost : {G : Type 0} → ℤ → Handles → Result Ptr × Handles × (G × World) → Type 0
Lost v H (r, H', (g, w)) = (r ≡ ok none) × (w.error ≢ none) × (H'.cell H.next ≡ some v)

module _ {G Args : Type 0} (C : Capsules G) (Holds : ℕ → Bytes → ℕ → G → Type 0)
    (keeps : KeepsPointers C Holds) (parse : Args → G × World → Option ℤ × (G × World)) where
  -- Where the argument is an int, make_handle ends in one of three ways. If there is memory for the
  -- handle, it gives a capsule, or a null pointer with an error set. In the capsule, the caster finds a
  -- handle with the value, cast to an int, and the destructor frees this handle and no other. With the
  -- null pointer, the handle stays in memory. If there is no memory for it, a std::bad_alloc leaves
  -- make_handle, with nothing made and no error set by it. CPython's capsules do what it documents of
  -- them.
  pub make_handle-Ends :
      (has_memory : Bool) (args : Args) (H : Handles) (s s' : G × World) (value : ℤ)
      → parse args s ≡ (some value, s')
      → let made = make_handle C has_memory parse args (H, s) in
        ((has_memory ≡ true) × (Lives C (to_int value) H made ⊎ Lost (to_int value) H made))
        ⊎ ((has_memory ≡ false) × (made ≡ (throw bad_alloc, H, s')))
  unfolding make_handle handle_from_python handle_destructor
  make_handle-Ends false args H s (g, w) value parsed = inr (refl, rw parsed refl)
  make_handle-Ends true args H s (g, w) value parsed = elim (keeps.makes H.next capsule_name g w) [
    | inl (o, g', holds, made) ↦
        let w' = record w { owned = o ∷ w.owned } in
        let got = keeps.gets o capsule_name H.next g' w' holds in
        inl (
          refl,
          inl (
              rw (parsed, made)
                (
                  o,
                  H.next,
                  refl,
                  rw ==_refl refl,
                  rw got refl,
                  rw (got, ==_refl) refl,
                  λ a other. rw (got, ==_ne a H.next other) refl,
                )),
        )
    | inr (e, failed) ↦ inl (refl, inr (rw (parsed, failed) (refl, (λ n. cc), rw ==_refl refl)))
  ]

  -- Of an object that is not a capsule of the name, the caster throws a cast_error and leaves no error
  -- set.
  pub handle_from_python-refuses :
      (o : ℕ) (g : G) (w : World)
      → ((p : ℕ) → ¬ (Holds o capsule_name p g))
      → handle_from_python C o (g, w)
        ≡ (throw (cast_error (codes "expected a bindingdemo.handle capsule")), (g, clear_error w))
  unfolding handle_from_python
  handle_from_python-refuses o g w other =
      let (e, refused) = keeps.refuses o capsule_name g w other in rw refused refl
