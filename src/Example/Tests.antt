-- ===== src/Example/Tests.antt =====
-- The modules of examples/binding_consumer over a small interpreter.
use sciforge.Base.{
  ◌≡◌, ◌≢◌, ◌↔◌, refl, arith, codes, true, [], ◌∷◌, none, some, ◌==◌, if◌then◌else◌, inl, inr,
  Bool-cases, bytes_eq,
}
use sciforge.Base.Int.{pos, negsuc, ◌+ℤ◌, ◌*ℤ◌}
use sciforge.Binding.Python.{Python, pure, set_error, python_error}
use sciforge.Binding.Convention.{settle}
use sciforge.Binding.Convert.Casters.{Ret, vector, to_python}
use sciforge.Binding.Convert.Results.{MakesResults}
use sciforge.Binding.Convert.Refusals.{to_python-refused}
use sciforge.Binding.Class.{Instances, Singletons, class_hash}
use sciforge.Binding.Fixtures.{interpreter, idle, new_object}
use sciforge.Binding.Fixtures.Documented.{interpreter-MakesResults}
use sciforge.Example.Widget.{
  Widget, widget_eq, widget_hash, widget_repr, widget_perimeter, make_widget, in_long_long,
}
use sciforge.Example.Functions.{upto, classify, nested_bad, not_utf8}
use sciforge.Example.Consumers.{signed_and}
use sciforge.Example.Described.{widget_eq_iff}
use sciforge.Example.Overflow.{widget_perimeter_lem}
use sciforge.Example.Hashable.{hash-widget_eq}
use sciforge.Example.Guarded.{work}

work_test : work 20 ≡ 57
unfolding work
work_test = refl

-- The objects at 70 and 71 hold equal widgets.
abbrev widgets : Instances Widget
widgets = record {
  class_type = some 40;
  class_name = codes "bindingdemo.Widget";
  type_check = λ obj type. (type == 40);
  held = λ o. some (record { w = if o == 72 then pos 5 else negsuc 2; h = pos 9 });
}

abbrev singletons : Singletons
singletons = record { not_implemented = 30; true_object = 31; false_object = 32 }

hash-widget_eq_example :
    (class_hash (some 50) (λ a. pure (widget_hash a)) widgets 70 idle).0
    ≡ (class_hash (some 50) (λ a. pure (widget_hash a)) widgets 71 idle).0
unfolding sciforge.Binding.Class.class_richcompare widget_eq
hash-widget_eq_example =
    hash-widget_eq widgets singletons (some 50) 70 71 idle (λ e. omega (arith, e))
      (λ e. omega (arith, e)) refl

hash_test : widget_hash (record { w = pos 3; h = pos 4 }) ≡ 3000013
unfolding widget_hash
hash_test = refl

repr_test : widget_repr (record { w = pos 3; h = negsuc 11 }) ≡ codes "Widget(3, -12)"
unfolding widget_repr
repr_test = refl

-- A perimeter that does not fit.
perimeter_test : widget_perimeter (record { w = pos 4611686018427387904; h = pos 0 }) ≡ none
unfolding widget_perimeter
perimeter_test = refl

upto_test : upto (pos 3) ≡ 0 ∷ 1 ∷ 2 ∷ []
unfolding upto
upto_test = refl

classify_test : classify (negsuc 2) ≡ (negsuc 2, codes "odd")
unfolding classify
classify_test = refl

widget_eq_iff_test :
    (widget_eq (make_widget (pos 1) (pos 23)) (make_widget (pos 12) (pos 3)) ≡ true)
    ↔ (widget_repr (make_widget (pos 1) (pos 23)) ≡ widget_repr (make_widget (pos 12) (pos 3)))
widget_eq_iff_test = widget_eq_iff (make_widget (pos 1) (pos 23)) (make_widget (pos 12) (pos 3))

widget_perimeter_lem_test :
    widget_perimeter (make_widget (pos 9223372036854775807) (negsuc 41))
    ≡ in_long_long (pos 2 *ℤ (pos 9223372036854775807 +ℤ negsuc 41))
widget_perimeter_lem_test = widget_perimeter_lem (make_widget (pos 9223372036854775807) (negsuc 41))

-- Python refuses what is not UTF-8.
abbrev strict : Python
strict = record interpreter {
  unicode_from_string =
      λ t w. if bytes_eq t not_utf8 then (none, set_error (python_error 4) w) else new_object 4 w;
}

strict-MakesResults : MakesResults strict
strict-MakesResults = record {
  bool_object = interpreter-MakesResults.bool_object;
  long = interpreter-MakesResults.long;
  unsigned_long = interpreter-MakesResults.unsigned_long;
  float = interpreter-MakesResults.float;
  unicode = λ t w. elim (Bool-cases (bytes_eq t not_utf8)) [
    | inl same ↦ rw same (inr (python_error 4, refl))
    | inr other ↦ rw other (inl (4, refl))
  ];
  list = interpreter-MakesResults.list;
  tuple_object = interpreter-MakesResults.tuple_object;
}

to_python-refused_example :
    let (r, w') =
      settle (some 50) (to_python strict (vector (vector Ret.string)) nested_bad idle) in
    (r ≡ none) × (w'.error ≢ none) × (w'.owned ≡ 9 ∷ [])
to_python-refused_example =
    to_python-refused strict strict-MakesResults (vector (vector Ret.string)) nested_bad (some 50)
      idle tt (inr (inl (inr (inl λ w. (python_error 4, refl))))) refl

-- -2 & 7.
signed_and_test : signed_and (negsuc 1) (pos 7) ≡ pos 6
unfolding signed_and
signed_and_test = refl
