-- ===== src/Binding/Module/ConstructTests.antt =====
-- A construction of a class of the module of examples/binding_consumer/bindingdemo/_demo.cpp, once it is imported.
use sciforge.Base.{
  ℕ, zero, suc, refl, codes, List, [], ◌∷◌, true, none, some, length, ◌==◌, All, arith,
}
use sciforge.Base.Int.{pos}
use sciforge.Binding.Python.{pure}
use sciforge.Binding.Keywords.{
  call_wrapper_kw, required, defaulted, signed, text, none_default, ArgSpec,
}
use sciforge.Binding.Class.{Instances, Factory, class_init}
use sciforge.Binding.Class.Init.{InitEnds}
use sciforge.Binding.Class.Builder.{BuilderCall, def_prop_ro}
use sciforge.Binding.Module.{Statement}
use sciforge.Binding.Module.Constructed.{Leaves}
use sciforge.Binding.Module.Constructs.{py_init-InitEnds}
use sciforge.Binding.Module.Tests.{importer, importer-IsDocumented, untouched, imported}
use sciforge.Binding.Fixtures.{
  interpreter, idle, interpreter-MakesDefaults, parser, parser-ParsesArguments,
}
use sciforge.Example.Demo.{demo_body}
use sciforge.Example.Vec.{Vec, make_vec}
use sciforge.Binding.Module.CallTests.{behind}

abbrev front : ℕ → List Statement → List Statement
front zero body = []
front (suc n) [] = []
front (suc n) (x ∷ body) = x ∷ front n body

-- Vec(3): a value of the class is its number of arguments.
abbrev vec_args : List ArgSpec
vec_args =
    required (codes "x")
    ∷ defaulted (codes "scale") none_default
    ∷ defaulted (codes "label") (text (codes "v"))
    ∷ []

abbrev vec_factory : Factory ℕ Vec
vec_factory = record {
  casters = (λ o. pure o) ∷ (λ o. pure o) ∷ (λ o. pure o) ∷ [];
  make = λ os. pure (make_vec (pos (length os)) none (codes "v"));
  within = λ os w I. I;
}

abbrev vecs : Instances Vec
vecs = record {
  class_type = some 90;
  class_name = codes "bindingdemo.Vec";
  type_check = λ obj type. (type == 90);
  held = λ o. none;
}

-- Only Widget is registered before it, twice.
front-Leaves : All (Leaves 1) (front 34 demo_body)
front-Leaves = (
  tt,
  (
    tt,
    (
      tt,
      (
        tt,
        (
          tt,
          (
            tt,
            (
              tt,
              (
                tt,
                (
                  tt,
                  (
                    tt,
                    (
                      tt,
                      (
                        tt,
                        (
                          tt,
                          (
                            tt,
                            (
                              tt,
                              (
                                tt,
                                (
                                  tt,
                                  (
                                    tt,
                                    (
                                      tt,
                                      (
                                        tt,
                                        (
                                          tt,
                                          (
                                            tt,
                                            (
                                              tt,
                                              (
                                                tt,
                                                (
                                                  tt,
                                                  (
                                                    (λ e. omega (arith, e)),
                                                    (
                                                      (λ e. omega (arith, e)),
                                                      (tt, (tt, (tt, (tt, (tt, (tt, (tt, tt))))))),
                                                    ),
                                                  ),
                                                ),
                                              ),
                                            ),
                                          ),
                                        ),
                                      ),
                                    ),
                                  ),
                                ),
                              ),
                            ),
                          ),
                        ),
                      ),
                    ),
                  ),
                ),
              ),
            ),
          ),
        ),
      ),
    ),
  ),
)

py_init-InitEnds_example :
    InitEnds vec_factory vecs 60
      (class_init (some 80) true parser vec_factory (imported.1.0.specs 5) vecs 60 (1003 ∷ []) idle)
unfolding sciforge.Binding.Keywords.required_before_optional
py_init-InitEnds_example =
    py_init-InitEnds importer importer-IsDocumented interpreter interpreter-MakesDefaults parser
      parser-ParsesArguments (codes "m.error") 5 (codes "bindingdemo.Vec") vec_args 1 []
      (BuilderCall.def (codes "total") ∷ def_prop_ro (codes "label") ∷ []) (front 34 demo_body)
      (behind 35 demo_body) untouched idle imported.0 imported.1.0 imported.1.1 (some 80) true
      vec_factory vecs 60 (1003 ∷ []) idle refl front-Leaves imported.2 refl
      ((λ o w e. e, (λ o w e. e, (λ o w e. e, tt))), λ os w e. e) refl refl refl
