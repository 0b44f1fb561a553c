-- ===== src/Example/Refused.antt =====
-- examples/binding_consumer/bindingdemo/_conflict.cpp and _throwing.cpp: two modules that are written so
-- that their import fails; and examples/binding_consumer/negative/required_after_optional.cpp, which is
-- written so that it does not compile.
use sciforge.Base.{◌≡◌, refl, false, ℕ, codes, List, [], ◌∷◌}
use sciforge.Base.Int.{ℤ, pos}
use sciforge.Cpp.{std_exception}
use sciforge.Binding.Keywords.{ArgSpec, required, defaulted, signed, required_before_optional}
use sciforge.Binding.Module.{Statement, def, def_kw, throws}

-- The number of the function `add` of _conflict.cpp.
abbrev pub add_func : ℕ
add_func = 0

abbrev pub conflict_body : List Statement
conflict_body =
    def_kw add_func (codes "add")
      (required (codes "x") ∷ defaulted (codes "n") (signed (pos 1)) ∷ [])
    ∷ def_kw add_func (codes "add2")
        (required (codes "x") ∷ defaulted (codes "n") (signed (pos 2)) ∷ [])
    ∷ []

abbrev pub throwing_body : List Statement
throwing_body = def (codes "one") ∷ throws (std_exception (codes "registration failed")) ∷ []

-- The function of _throwing.cpp.
abbrev pub one : ℤ
one = pos 1

-- What required_after_optional.cpp registers its function with.
abbrev pub negative_args : List ArgSpec
negative_args = defaulted (codes "x") (signed (pos 1)) ∷ required (codes "n") ∷ []

abbrev pub negative_body : List Statement
negative_body = def_kw 0 (codes "add") negative_args ∷ []

-- The compiler's test refuses it.
negative_args_refused : required_before_optional negative_args ≡ false
unfolding required_before_optional
negative_args_refused = refl
