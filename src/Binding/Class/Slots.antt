-- ===== src/Binding/Class/Slots.antt =====
-- What the entry points of a wrapped type of include/sciforge/binding/class.hpp give back.
use sciforge.Base.{
  ◌∙◌, ◌⊎◌, true, codes, ◌++◌, Option-cases, ==_iff, ℕ, ◌≡◌, ◌≢◌, ◌↔◌, refl, Bytes, Bool, not, List,
  Option, none, some, arith, Bool-cases, inl, inr, length, ◌==◌, if◌then◌else◌,
}
use sciforge.Base.Int.{ℤ, pos, negsuc}
use sciforge.Cpp.{
  Exn, Result, ok, throw, cast_error, error_already_set, bad_alloc, std_exception, non_standard,
}
use sciforge.Binding.Python.{Ptr, World, Py, Python, type_error, set_error, and_then, ◌>>=◌}
use sciforge.Binding.Error.{set_cpp_error, translate}
use sciforge.Binding.Convention.{
  IsHonest, EndsHonest, KeepsConvention, settle-KeepsConvention, >>=-IsHonest, >>=-IsHonestPtr,
}
use sciforge.Binding.Dispatch.{CppFunction, arity, invoke, wrong_count}
use sciforge.Binding.Dispatch.Calls.{FunctionIsHonest, invoke-IsHonest}
use sciforge.Binding.Class.{
  Instances, CompareOp, lt, le, eq, ne, gt, ge, Singletons, avoid_error_value, new_reference,
  as_hash, is_instance, held_or_throw, class_unwrap, call_method, settle_compare, compared,
  compare_instances, class_richcompare, settle_hash, class_hash,
}

pub set_cpp_error-sets_error :
    (error_type : Ptr) (e : Exn) (w : World)
    → EndsHonest {A = ℕ} (throw e, w)
    → (set_cpp_error error_type e w).1.error ≢ none
unfolding set_cpp_error
set_cpp_error-sets_error t error_already_set w h = h
set_cpp_error-sets_error t (cast_error what) w h = cc
set_cpp_error-sets_error t bad_alloc w h = cc
set_cpp_error-sets_error t (std_exception what) w h = cc
set_cpp_error-sets_error t non_standard w h = cc

-- The convention for an entry point that gives a number: -1 exactly where an error is set.
abbrev pub KeepsNumberConvention : ℤ × World → Type 0
KeepsNumberConvention (n, w) = (n ≡ negsuc 0) ↔ (w.error ≢ none)

avoids : (z : ℤ) → avoid_error_value z ≢ negsuc 0
avoids (pos n) = cc
avoids (negsuc n) = elim (Bool-cases (n == 0)) [
  | inl minus_one ↦ rw minus_one λ e. ground arith
  | inr other ↦ rw other λ e. ground arith
]

settle_hash-KeepsNumberConvention :
    (error_type : Ptr) (r : Result ℕ) (w : World)
    → EndsHonest (r, w)
    → KeepsNumberConvention (settle_hash error_type (r, w))
settle_hash-KeepsNumberConvention t (ok h) w e =
    (λ minus. absurd (avoids (as_hash h) minus), λ set. absurd (set e))
settle_hash-KeepsNumberConvention t (throw x) w e =
    (λ _. set_cpp_error-sets_error t x w e, λ _. refl)

-- As EndsHonest, where a cast_error also leaves no error pending: a comparison answers NotImplemented
-- to one.
abbrev pub EndsClean : {A : Type 0} → Result A × World → Type 0
EndsClean (ok a, w) = w.error ≡ none
EndsClean (throw (cast_error what), w) = w.error ≡ none
EndsClean (throw error_already_set, w) = w.error ≢ none
EndsClean (throw bad_alloc, w) = Unit
EndsClean (throw (std_exception what), w) = Unit
EndsClean (throw non_standard, w) = Unit

abbrev pub IsClean : {A : Type 0} → Py A → Type 0
IsClean m = (w : World) → w.error ≡ none → EndsClean (m w)

and_then-EndsClean :
    {A B : Type 0} (r : Result A) (f : A → Py B) (w : World)
    → EndsClean (r, w)
    → ((a : A) → IsClean (f a))
    → EndsClean (and_then r f w)
and_then-EndsClean (ok a) f w h k = k a w h
and_then-EndsClean (throw error_already_set) f w h k = h
and_then-EndsClean (throw (cast_error what)) f w h k = h
and_then-EndsClean (throw bad_alloc) f w h k = tt
and_then-EndsClean (throw (std_exception what)) f w h k = tt
and_then-EndsClean (throw non_standard) f w h k = tt

clean-EndsHonest : {A : Type 0} (r : Result A) (w : World) → EndsClean (r, w) → EndsHonest (r, w)
clean-EndsHonest (ok a) w h = h
clean-EndsHonest (throw error_already_set) w h = h
clean-EndsHonest (throw (cast_error what)) w h = tt
clean-EndsHonest (throw bad_alloc) w h = tt
clean-EndsHonest (throw (std_exception what)) w h = tt
clean-EndsHonest (throw non_standard) w h = tt

settle_compare-KeepsConvention :
    (S : Singletons) (error_type : Ptr) (adjust : Bool → Bool) (r : Result Bool) (w : World)
    → EndsClean (r, w)
    → KeepsConvention (settle_compare S error_type adjust (r, w))
unfolding set_cpp_error
settle_compare-KeepsConvention S t adjust (ok equal) w h = (λ e. cc, λ set. absurd (set h))
settle_compare-KeepsConvention S t adjust (throw (cast_error what)) w h =
    (λ e. cc, λ set. absurd (set h))
settle_compare-KeepsConvention S t adjust (throw error_already_set) w h = (λ _. h, λ _. refl)
settle_compare-KeepsConvention S t adjust (throw bad_alloc) w h = (λ _. cc, λ _. refl)
settle_compare-KeepsConvention S t adjust (throw (std_exception what)) w h = (λ _. cc, λ _. refl)
settle_compare-KeepsConvention S t adjust (throw non_standard) w h = (λ _. cc, λ _. refl)

module _ {T : Type 0} where
  held_or_throw-IsClean : (name : Bytes) (value : Option T) → IsClean (held_or_throw name value)
  held_or_throw-IsClean name none w h = h
  held_or_throw-IsClean name (some t) w h = h

  class_unwrap-IsClean : (I : Instances T) (obj : ℕ) → IsClean (class_unwrap I obj)
  unfolding class_unwrap
  class_unwrap-IsClean I obj w h = elim (Bool-cases (is_instance I obj)) [
    | inl instance_of ↦ rw instance_of (held_or_throw-IsClean I.class_name (I.held obj) w h)
    | inr other ↦ rw other h
  ]

  class_unwrap-IsHonest : (I : Instances T) (obj : ℕ) → IsHonest (class_unwrap I obj)
  class_unwrap-IsHonest I obj w h =
      clean-EndsHonest (class_unwrap I obj w).0 (class_unwrap I obj w).1
        (class_unwrap-IsClean I obj w h)

  compared-IsClean :
      (eq_of : T → T → Py Bool) (I : Instances T) (self other : ℕ)
      → ((a b : T) → IsClean (eq_of a b))
      → IsClean (compared eq_of I self other)
  compared-IsClean eq_of I self other h w e =
      and_then-EndsClean (class_unwrap I self w).0 _ (class_unwrap I self w).1
        (class_unwrap-IsClean I self w e)
        λ a v e'.
          and_then-EndsClean (class_unwrap I other v).0 _ (class_unwrap I other v).1
            (class_unwrap-IsClean I other v e') λ b. h a b

  -- An instance of the type that holds a value.
  abbrev pub HasValue : Instances T → ℕ → Type 0
  HasValue I obj = (is_instance I obj ≡ true) × ((value : T) × (I.held obj ≡ some value))

  -- The value, or a cast_error.
  unwrap_cases :
      (I : Instances T) (obj : ℕ)
      → (HasValue I obj × ((value : T) × ((w : World) → class_unwrap I obj w ≡ (ok value, w))))
        ⊎ ((what : Bytes) × ((w : World) → class_unwrap I obj w ≡ (throw (cast_error what), w)))
  unfolding class_unwrap
  unwrap_cases I obj = elim (Bool-cases (is_instance I obj)) [
    | inr other ↦ inr (codes "expected a " ++ I.class_name, λ w. rw other refl)
    | inl instance_of ↦ elim (Option-cases (I.held obj)) [
      | inl empty ↦
          inr (codes "uninitialized " ++ I.class_name, λ w. rw instance_of (rw empty refl))
      | inr (value, full) ↦
          inl ((instance_of, (value, full)), (value, λ w. rw instance_of (rw full refl)))
    ]
  ]

  -- The hash of an instance is -1 exactly when an error is set, for a hash function that keeps to
  -- Python's rules and with no error pending before: a hash value that is -1 as a Py_hash_t does not
  -- pass for an error. An object of another type or without a value gives -1 and sets one.
  pub class_hash-KeepsNumberConvention :
      (error_type : Ptr) (hash : T → Py ℕ) (I : Instances T) (self : ℕ) (w : World)
      → ((value : T) → IsHonest (hash value))
      → w.error ≡ none
      → let r = class_hash error_type hash I self w in
        KeepsNumberConvention r × (HasValue I self ⊎ ((r.0 ≡ negsuc 0) × (r.1.error ≢ none)))
  unfolding class_hash
  class_hash-KeepsNumberConvention error_type hash I self w h e = (
    settle_hash-KeepsNumberConvention error_type ((class_unwrap I self >>= hash) w).0
        ((class_unwrap I self >>= hash) w).1
        (>>=-IsHonest (class_unwrap I self) hash (class_unwrap-IsHonest I self) h w e),
    elim (unwrap_cases I self) [
      | inl (has, gives) ↦ inl has
      | inr (what, fails) ↦ inr (
        rw (fails w) refl,
        rw (fails w) (set_cpp_error-sets_error error_type (cast_error what) w tt),
      )
    ],
  )

  -- A method call gives a null pointer exactly when it leaves an error set, whatever `self` and the
  -- arguments are, for a method that keeps to Python's rules and with no error pending before. With
  -- another number of arguments than the method has parameters, on an object of another type or on one
  -- without a value, it calls nothing: it gives a null pointer and sets a TypeError.
  pub call_method-KeepsConvention :
      {V : Type 0} (P : Python) (error_type : Ptr) (params : ℕ) (f : T → CppFunction V)
      (I : Instances T) (self : ℕ) (args : List ℕ) (w : World)
      → ((value : T) → FunctionIsHonest (f value))
      → ((value : T) → params ≡ arity (f value))
      → w.error ≡ none
      → let r = call_method P error_type params f I self args w in
        KeepsConvention r
        × (((length args ≡ params) × HasValue I self)
            ⊎ ((what : Bytes) × (r ≡ (none, set_error (type_error what) w))))
  unfolding call_method translate
  call_method-KeepsConvention P error_type params f I self args w h as_many e =
      let body =
        (if length args == params
            then (class_unwrap I self >>= λ value. invoke P (f value) args)
            else wrong_count params (length args))
          w in
      elim (Bool-cases (length args == params)) [
        | inr wrong ↦ rw wrong (
          settle-KeepsConvention error_type (wrong_count params (length args) w).0 w tt,
          inr (_, refl),
        )
        | inl right ↦
            let count = (==_iff (length args) params).0 right in
            rw right (
              settle-KeepsConvention error_type
                  ((class_unwrap I self >>= λ value. invoke P (f value) args) w).0
                  ((class_unwrap I self >>= λ value. invoke P (f value) args) w).1
                  (>>=-IsHonestPtr (class_unwrap I self) (λ value. invoke P (f value) args)
                    (class_unwrap-IsHonest I self)
                    (λ value. invoke-IsHonest P (f value) args (h value) (count ∙ as_many value)) w
                    e),
              elim (unwrap_cases I self) [
                | inl (has, gives) ↦ inl (count, has)
                | inr (what, fails) ↦ inr (what, rw (fails w) refl)
              ],
            )
      ]

  instances-KeepsConvention :
      (S : Singletons) (error_type : Ptr) (eq_of : T → T → Py Bool) (adjust : Bool → Bool)
      (I : Instances T) (self other : ℕ) (w : World)
      → ((a b : T) → IsClean (eq_of a b))
      → w.error ≡ none
      → let r = compare_instances S error_type eq_of adjust I self other w in
        KeepsConvention r
        × ((HasValue I self × HasValue I other) ⊎ (r ≡ new_reference S.not_implemented w))
  instances-KeepsConvention S error_type eq_of adjust I self other w h e =
      elim (Bool-cases (is_instance I other)) [
        | inl instance_of ↦ rw instance_of (
          settle_compare-KeepsConvention S error_type adjust (compared eq_of I self other w).0
              (compared eq_of I self other w).1 (compared-IsClean eq_of I self other h w e),
          elim (unwrap_cases I self) [
            | inr (what, fails) ↦ inr (rw (fails w) refl)
            | inl (mine, (value, gives)) ↦ elim (unwrap_cases I other) [
              | inl (theirs, rest) ↦ inl (mine, (refl, theirs.1))
              | inr (what, fails) ↦ inr (rw (gives w, fails w) refl)
            ]
          ],
        )
        | inr no_instance ↦ rw no_instance ((λ n. cc, λ set. absurd (set e)), inr refl)
      ]

  -- A comparison gives a null pointer exactly when it leaves an error set, whatever the operator and
  -- the operands are. An operator other than == and !=, an operand of another type and one without a
  -- value all give NotImplemented, and no error. This is for an equality that keeps to Python's rules
  -- (with no error pending behind a cast_error), and with no error pending before.
  pub class_richcompare-KeepsConvention :
      (S : Singletons) (error_type : Ptr) (eq_of : T → T → Py Bool) (I : Instances T)
      (self other : ℕ) (op : CompareOp) (w : World)
      → ((a b : T) → IsClean (eq_of a b))
      → w.error ≡ none
      → let r = class_richcompare S error_type eq_of I self other op w in
        KeepsConvention r
        × ((((op ≡ eq) ⊎ (op ≡ ne)) × HasValue I self × HasValue I other)
            ⊎ (r ≡ new_reference S.not_implemented w))
  unfolding class_richcompare
  class_richcompare-KeepsConvention S t eq_of I self other eq w h e =
      let (keeps, which) =
        instances-KeepsConvention S t eq_of (λ equal. equal) I self other w h e in
      (keeps, elim which [ inl has ↦ inl (inl refl, has.0, has.1) | inr same ↦ inr same ])
  class_richcompare-KeepsConvention S t eq_of I self other ne w h e =
      let (keeps, which) = instances-KeepsConvention S t eq_of not I self other w h e in
      (keeps, elim which [ inl has ↦ inl (inr refl, has.0, has.1) | inr same ↦ inr same ])
  class_richcompare-KeepsConvention S t eq_of I self other lt w h e =
      ((λ n. cc, λ set. absurd (set e)), inr refl)
  class_richcompare-KeepsConvention S t eq_of I self other le w h e =
      ((λ n. cc, λ set. absurd (set e)), inr refl)
  class_richcompare-KeepsConvention S t eq_of I self other gt w h e =
      ((λ n. cc, λ set. absurd (set e)), inr refl)
  class_richcompare-KeepsConvention S t eq_of I self other ge w h e =
      ((λ n. cc, λ set. absurd (set e)), inr refl)
