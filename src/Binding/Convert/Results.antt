-- ===== src/Binding/Convert/Results.antt =====
-- The results that the casters of include/sciforge/binding/convert.hpp hand to Python, containers of
-- containers included.
use sciforge.Base.{
  ℕ, suc, ◌≡◌, refl, Bytes, List, [], ◌∷◌, map, none, some, inl, inr, All, length, if◌then◌else◌,
  Bool-cases,
}
use sciforge.Base.Int.{ℤ, pos_part}
use sciforge.Cpp.{
  Result, ok, throw, cast_error, error_already_set, bad_alloc, std_exception, non_standard,
}
use sciforge.Binding.Python.{Double, Ptr, World, Py, Python, MakesObject, and_then, set_item}
use sciforge.Binding.Convention.{EndsHonest, IsHonest, EndsHonestPtr, IsHonestPtr}
use sciforge.Binding.Convert.{
  IntType, is_signed, int_to_python, fill, built, store, or_release, vector_to_python,
  tuple_to_python,
}
use sciforge.Binding.Convert.Containers.{
  IsBalanced, vector_to_python-Balanced, tuple_to_python-Balanced,
}
use sciforge.Binding.Convert.Casters.{
  Ret, vector, tuple, Rets, no_more, and_one, RetValue, RetValues, plain_call, bool_to_python,
  to_python, elements,
}

-- A result without a PyObject* in it, whose reference the C++ function itself hands over.
abbrev mutual
  pub HasNoObject : Ret → Type 0
  HasNoObject Ret.object = ⊥
  HasNoObject Ret.boolean = Unit
  HasNoObject Ret.string = Unit
  HasNoObject Ret.double = Unit
  HasNoObject (Ret.integer T) = Unit
  HasNoObject (vector c) = HasNoObject c
  HasNoObject (tuple cs) = HaveNoObject cs

  pub HaveNoObject : Rets → Type 0
  HaveNoObject no_more = Unit
  HaveNoObject (and_one c cs) = HasNoObject c × HaveNoObject cs

-- What CPython documents of the calls that make the results.
pub record MakesResults (P : Python) : Type 0 where
  pub bool_object : (n : ℕ) → MakesObject (P.bool_from_long n)
  pub long : (n : ℤ) → MakesObject (P.long_from_long_long n)
  pub unsigned_long : (n : ℕ) → MakesObject (P.long_from_unsigned n)
  pub float : (d : Double) → MakesObject (P.float_from_double d)
  pub unicode : (t : Bytes) → MakesObject (P.unicode_from_string t)
  pub list : (n : ℕ) → MakesObject (P.list_new n)
  pub tuple_object : (n : ℕ) → MakesObject (P.tuple_new n)

-- A conversion hands over one new reference and leaves no error, or fails with an error or an
-- exception and leaves no reference behind.
abbrev pub Converts : Py Ptr → Type 0
Converts m = IsHonestPtr m × IsBalanced m

made-Converts : (f : World → Ptr × World) → MakesObject f → Converts (plain_call f)
made-Converts f makes = (
  (λ w clean. elim (makes w) [
    | inl (o, made) ↦ rw made clean
    | inr (e, failed) ↦ rw failed λ n. cc
  ]),
  λ w. elim (makes w) [ inl (o, made) ↦ rw made refl | inr (e, failed) ↦ rw failed refl ],
)

module _ (P : Python) where
  fill-step :
      (container i : ℕ) (rest : List (Py Ptr)) (r : Result Ptr) (w : World)
      → EndsHonestPtr (r, w)
      → IsHonest (fill P container (suc i) rest)
      → EndsHonest (
          and_then r
            (λ element v.
              and_then
                (store P container i element v).0
                (λ _. fill P container (suc i) rest)
                (store P container i element v).1)
            w)
  fill-step container i rest (ok (some o)) w h k = k (set_item container i o w) h
  fill-step container i rest (ok none) w h k = h
  fill-step container i rest (throw error_already_set) w h k = h
  fill-step container i rest (throw (cast_error what)) w h k = tt
  fill-step container i rest (throw bad_alloc) w h k = tt
  fill-step container i rest (throw (std_exception what)) w h k = tt
  fill-step container i rest (throw non_standard) w h k = tt

  fill-IsHonest :
      (container i : ℕ) (items : List (Py Ptr))
      → All IsHonestPtr items
      → IsHonest (fill P container i items)
  unfolding fill
  fill-IsHonest container i [] h w clean = clean
  fill-IsHonest container i (convert ∷ rest) h w clean =
      fill-step container i rest (convert w).0 (convert w).1 (h.0 w clean)
        (fill-IsHonest container (suc i) rest h.1)

  or_release-EndsHonestPtr :
      (container : ℕ) (r : Result (Unit {0})) (w : World)
      → EndsHonest (r, w)
      → EndsHonestPtr (or_release P container (r, w))
  or_release-EndsHonestPtr container (ok u) w h = h
  or_release-EndsHonestPtr container (throw error_already_set) w h = h
  or_release-EndsHonestPtr container (throw (cast_error what)) w h = tt
  or_release-EndsHonestPtr container (throw bad_alloc) w h = tt
  or_release-EndsHonestPtr container (throw (std_exception what)) w h = tt
  or_release-EndsHonestPtr container (throw non_standard) w h = tt

  built-EndsHonestPtr :
      (items : List (Py Ptr)) (new : World → Ptr × World) (w : World)
      → MakesObject new
      → All IsHonestPtr items
      → w.error ≡ none
      → EndsHonestPtr (built P items (new w))
  built-EndsHonestPtr items new w makes h clean = elim (makes w) [
    | inl (o, made) ↦ rw made (
        or_release-EndsHonestPtr o _ _
          (fill-IsHonest o 0 items h (record w { owned = o ∷ w.owned }) clean))
    | inr (e, failed) ↦ rw failed λ n. cc
  ]

  map-IsHonestPtr :
      {A : Type 0} (element : A → Py Ptr) (items : List A)
      → ((a : A) → IsHonestPtr (element a))
      → All IsHonestPtr (map element items)
  map-IsHonestPtr element [] h = tt
  map-IsHonestPtr element (a ∷ items) h = (h a, map-IsHonestPtr element items h)

  vector-Converts :
      {A : Type 0} (element : A → Py Ptr) (items : List A)
      → ((n : ℕ) → MakesObject (P.list_new n))
      → ((a : A) → Converts (element a))
      → Converts (vector_to_python P element items)
  unfolding vector_to_python
  vector-Converts element items makes h = (
    (λ w clean.
        built-EndsHonestPtr (map element items) (P.list_new (length items)) w (makes (length items))
          (map-IsHonestPtr element items λ a. (h a).0) clean),
    λ w. vector_to_python-Balanced P element items w makes λ a. (h a).1,
  )

  tuple-Converts :
      (items : List (Py Ptr))
      → ((n : ℕ) → MakesObject (P.tuple_new n))
      → All IsHonestPtr items
      → All IsBalanced items
      → Converts (tuple_to_python P items)
  unfolding tuple_to_python
  tuple-Converts items makes h b = (
    (λ w clean.
        built-EndsHonestPtr items (P.tuple_new (length items)) w (makes (length items)) h clean),
    λ w. tuple_to_python-Balanced P items w makes b,
  )

module _ (P : Python) (makes : MakesResults P) where
  int_to_python-Converts :
      (T : IntType) (value : ℤ) → Converts (plain_call (int_to_python P T value))
  unfolding int_to_python
  int_to_python-Converts T value = elim (Bool-cases (is_signed T)) [
    | inl signed_type ↦
        rw signed_type (made-Converts (P.long_from_long_long value) (makes.long value))
    | inr unsigned_type ↦ rw unsigned_type (
        made-Converts (P.long_from_unsigned (pos_part value))
          (makes.unsigned_long (pos_part value)))
  ]

  mutual
    unfolding to_python bool_to_python

    converted : (c : Ret) (value : RetValue c) → HasNoObject c → Converts (to_python P c value)
    converted Ret.object value h = absurd h
    converted Ret.boolean value h =
        made-Converts (P.bool_from_long (if value then 1 else 0))
          (makes.bool_object (if value then 1 else 0))
    converted Ret.string value h = made-Converts (P.unicode_from_string value) (makes.unicode value)
    converted Ret.double value h = made-Converts (P.float_from_double value) (makes.float value)
    converted (Ret.integer T) value h = int_to_python-Converts T value
    converted (vector c) items h =
        vector-Converts P (to_python P c) items makes.list λ a. converted c a h
    converted (tuple cs) values h =
        let es = elements_converted cs values h in
        tuple-Converts P (elements P cs values) makes.tuple_object es.0 es.1

    elements_converted :
        (cs : Rets) (values : RetValues cs)
        → HaveNoObject cs
        → All IsHonestPtr (elements P cs values) × All IsBalanced (elements P cs values)
    elements_converted no_more values h = (tt, tt)
    elements_converted (and_one c cs) (value, values) h =
        let one = converted c value h.0 in
        let rest = elements_converted cs values h.1 in ((one.0, rest.0), (one.1, rest.1))

  -- Every result without a PyObject* in it, vectors and tuples of each other to any depth included, is
  -- converted to one new reference with no error set, or the conversion fails, with an error set or
  -- an exception, and leaves no reference behind. CPython's calls give a new reference or set an
  -- error.
  pub to_python-Converts :
      (c : Ret) (value : RetValue c) → HasNoObject c → Converts (to_python P c value)
  to_python-Converts c value h = converted c value h
