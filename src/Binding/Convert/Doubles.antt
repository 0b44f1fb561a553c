-- ===== src/Binding/Convert/Doubles.antt =====
-- The caster of double of include/sciforge/binding/convert.hpp is exact.
use sciforge.Base.{ℕ, ◌≡◌, ◌⊎◌, refl, codes, Option, none, some, inl, inr, Bool-cases, ◌==◌}
use sciforge.Cpp.{ok}
use sciforge.Binding.Python.{PyError, World, Double, Python, set_error}
use sciforge.Binding.Convert.{expected, minus_one_double, double_from_python}

module _ (P : Python) where
  -- What CPython documents of PyFloat_AsDouble: the value of the object, or -1.0 and an error.
  abbrev pub ReadsDoubles : (ℕ → Option Double) → Type 0
  ReadsDoubles number =
      (o : ℕ) (w : World)
      → ((v : Double) × (number o ≡ some v) × (P.as_double o w ≡ (v, w)))
        ⊎ ((v : Double) × (e : PyError) × (number o ≡ none)
            × (v ≡ minus_one_double)
            × (P.as_double o w ≡ (v, set_error e w)))

  -- How the caster answers for an object with a value, and for one without: a cast_error that names what
  -- was expected and the type of what was given, as thrown with no error set.
  abbrev pub ReadsExactly : Option Double → ℕ → World → Type 0
  ReadsExactly (some v) o w = double_from_python P o w ≡ (ok v, w)
  ReadsExactly none o w = double_from_python P o w ≡ expected P (codes "float") o w

  -- The caster of double, begun with no error set, gives the value of every object that PyFloat_AsDouble
  -- reads as a float, -1.0 included, and throws the cast_error for every other one, the error that the
  -- call has set being cleared.
  pub double_from_python-ReadsExactly :
      (number : ℕ → Option Double) (o : ℕ) (w : World)
      → ReadsDoubles number
      → w.error ≡ none
      → ReadsExactly (number o) o w
  unfolding double_from_python
  double_from_python-ReadsExactly number o w reads clean = elim (reads o w) [
    | inl (v, is_number, read) ↦ elim (Bool-cases (v == minus_one_double)) [
      | inl minus ↦ rw (is_number, read, minus, clean) refl
      | inr other ↦ rw (is_number, read, other) refl
    ]
    | inr (v, e, refused, minus, read) ↦ rw (refused, read, minus, clean) refl
  ]
