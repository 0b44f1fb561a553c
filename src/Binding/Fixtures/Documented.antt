-- ===== src/Binding/Fixtures/Documented.antt =====
-- The small interpreter reads objects and makes results as CPython documents it for the casters of
-- include/sciforge/binding/convert.hpp.
use sciforge.Base.{◌+◌, refl, inl, inr, ◌==◌, Bool-cases}
use sciforge.Base.Int.{pos_part}
use sciforge.Binding.Convert.{i64, u64}
use sciforge.Binding.Convert.Honest.{ReadsObjects}
use sciforge.Binding.Convert.Results.{MakesResults}
use sciforge.Binding.Fixtures.{interpreter, new_object-MakesObject, value_at, fits_in}

pub interpreter-ReadsObjects : ReadsObjects interpreter
interpreter-ReadsObjects = record {
  truth = λ o w clean. clean;
  long_long = λ o w clean. elim (Bool-cases (fits_in i64 (value_at o))) [
    | inl small ↦ rw small (inl clean)
    | inr large ↦ rw large (inr (refl, λ n. cc))
  ];
  unsigned = λ o w clean. elim (Bool-cases (fits_in u64 (value_at o))) [
    | inl small ↦ rw small (inl clean)
    | inr large ↦ rw large (inr (refl, λ n. cc))
  ];
  double = λ o w clean. elim (Bool-cases (o == 8)) [
    | inl refused ↦ rw refused (inr (refl, λ n. cc))
    | inr read ↦ rw read (inl clean)
  ];
  utf8 = λ o w clean. clean;
  bytes_read = λ o w clean. tt;
}

pub interpreter-MakesResults : MakesResults interpreter
interpreter-MakesResults = record {
  bool_object = λ n. new_object-MakesObject n;
  long = λ n. new_object-MakesObject (pos_part n + 1000);
  unsigned_long = λ n. new_object-MakesObject (n + 1000);
  float = λ d. new_object-MakesObject 11;
  unicode = λ t. new_object-MakesObject 4;
  list = λ n. new_object-MakesObject 5;
  tuple_object = λ n. new_object-MakesObject 6;
}
