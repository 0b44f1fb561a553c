-- ===== src/Binding/Class/Equality.antt =====
-- The comparison and the hash of a wrapped type of include/sciforge/binding/class.hpp, together.
use sciforge.Base.{
  ℕ, ◌++◌, Bytes, codes, ◌≡◌, ◌≢◌, ◌⊎◌, refl, sym, ap, Bool, true, none, some, Bool-cases,
  Option-cases, inl, inr,
}
use sciforge.Cpp.{ok, throw, cast_error}
use sciforge.Binding.Python.{Ptr, World, pure}
use sciforge.Binding.Class.{
  Instances, Singletons, eq, is_instance, class_unwrap, class_richcompare, class_hash,
}

object_equal : (a b : ℕ) → some a ≡ some b → a ≡ b
object_equal a b e = ap (λ (o : Ptr). elim o [ none ↦ a | some c ↦ c ]) e

module _ {T : Type 0} (I : Instances T) (error_type : Ptr) where
  -- An instance that can be unwrapped, or the exception that it gives.
  abbrev Unwraps : ℕ → Type 0
  Unwraps x =
      ((value : T) × ((w : World) → class_unwrap I x w ≡ (ok value, w)))
      ⊎ ((what : Bytes) × ((w : World) → class_unwrap I x w ≡ (throw (cast_error what), w)))

  class_unwrap-Unwraps : (x : ℕ) → Unwraps x
  unfolding class_unwrap
  class_unwrap-Unwraps x = elim (Bool-cases (is_instance I x)) [
    | inr other ↦ inr (codes "expected a " ++ I.class_name, λ w. rw other refl)
    | inl mine ↦ elim (Option-cases (I.held x)) [
      | inl n ↦ inr (codes "uninitialized " ++ I.class_name, λ w. rw (mine, n) refl)
      | inr (value, s) ↦ inl (value, λ w. rw (mine, s) refl)
    ]
  ]

  -- Where an equality and a hash throw nothing, and equal values have equal hashes, two objects that
  -- Python finds equal by `==` have the same hash in Python.
  pub class_hash-equal :
      (S : Singletons) (eq_of : T → T → Bool) (hash_of : T → ℕ) (x y : ℕ) (w : World)
      → ((a b : T) → eq_of a b ≡ true → hash_of a ≡ hash_of b)
      → S.true_object ≢ S.false_object
      → S.true_object ≢ S.not_implemented
      → (class_richcompare S error_type (λ a b. pure (eq_of a b)) I x y eq w).0 ≡ some S.true_object
      → (class_hash error_type (λ a. pure (hash_of a)) I x w).0
        ≡ (class_hash error_type (λ a. pure (hash_of a)) I y w).0
  unfolding class_richcompare class_hash class_unwrap
  class_hash-equal S eq_of hash_of x y w agree distinct answered equal =
      elim (Bool-cases (is_instance I y)) [
        | inr other ↦ absurd (answered (sym (object_equal _ _ (rw other at equal))))
        | inl mine ↦ elim (class_unwrap-Unwraps x) [
          | inr (what, u) ↦ absurd (answered (sym (object_equal _ _ (rw (mine, u w) at equal))))
          | inl (a, u) ↦ elim (Option-cases (I.held y)) [
            | inl n ↦ absurd (answered (sym (object_equal _ _ (rw (mine, u w, n) at equal))))
            | inr (b, s) ↦ elim (Bool-cases (eq_of a b)) [
              | inr different ↦
                  absurd (distinct (sym (object_equal _ _ (rw (mine, u w, s, different) at equal))))
              | inl same ↦ rw (u w, class_unwrap, mine, s, agree a b same) refl
            ]
          ]
        ]
      ]
