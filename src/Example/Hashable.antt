-- ===== src/Example/Hashable.antt =====
-- Widget of examples/binding_consumer/bindingdemo/_demo.cpp as a key of Python's dictionaries.
use sciforge.Base.{ℕ, ◌≡◌, ◌≢◌, ap, true, Bool-cases, some, ==_iff, inl, inr}
use sciforge.Base.Int.{ℤ, pos, negsuc}
use sciforge.Binding.Python.{Ptr, World, pure}
use sciforge.Binding.Class.{Instances, Singletons, eq, class_richcompare, class_hash}
use sciforge.Binding.Class.Equality.{class_hash-equal}
use sciforge.Example.Widget.{Widget, equal_ℤ, widget_eq, widget_hash}

equal_ℤ_iff : (a b : ℤ) → equal_ℤ a b ≡ true → a ≡ b
equal_ℤ_iff (pos m) (pos n) h = ap pos ((==_iff m n).0 h)
equal_ℤ_iff (pos m) (negsuc n) h = cc
equal_ℤ_iff (negsuc m) (pos n) h = cc
equal_ℤ_iff (negsuc m) (negsuc n) h = ap negsuc ((==_iff m n).0 h)

pub widget_eq-equal : (a b : Widget) → widget_eq a b ≡ true → a ≡ b
unfolding widget_eq
widget_eq-equal a b h = elim (Bool-cases (equal_ℤ a.w b.w)) [
  | inr different ↦ let e = rw different at h in cc
  | inl same ↦ let w = equal_ℤ_iff a.w b.w same in let h' = equal_ℤ_iff a.h b.h (rw same at h) in cc
]

widget_hash-equal : (a b : Widget) → widget_eq a b ≡ true → widget_hash a ≡ widget_hash b
widget_hash-equal a b h = ap widget_hash (widget_eq-equal a b h)

-- Two objects that Python finds equal by the `==` of the class Widget have the same hash by its
-- `__hash__`, whatever they hold, so that either is found in a dictionary under the other. True, False
-- and NotImplemented are different objects.
pub hash-widget_eq :
    (I : Instances Widget) (S : Singletons) (error_type : Ptr) (x y : ℕ) (w : World)
    → S.true_object ≢ S.false_object
    → S.true_object ≢ S.not_implemented
    → (class_richcompare S error_type (λ a b. pure (widget_eq a b)) I x y eq w).0
      ≡ some S.true_object
    → (class_hash error_type (λ a. pure (widget_hash a)) I x w).0
      ≡ (class_hash error_type (λ a. pure (widget_hash a)) I y w).0
hash-widget_eq I S error_type x y w =
    class_hash-equal I error_type S widget_eq widget_hash x y w widget_hash-equal
