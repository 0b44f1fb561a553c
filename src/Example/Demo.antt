-- ===== src/Example/Demo.antt =====
-- examples/binding_consumer/bindingdemo/_demo.cpp: the body of the module, which registers its functions
-- and classes.
use sciforge.Base.{ℕ, codes, List, [], ◌∷◌, ◌++◌}
use sciforge.Base.Int.{pos}
use sciforge.Binding.Convert.{max_unsigned}
use sciforge.Binding.Dispatch.{no_args, var_args}
use sciforge.Binding.Keywords.{required, defaulted, none_default, text, signed, unsigned}
use sciforge.Binding.Class.Builder.{
  BuilderCall, def_prop_ro, def_repr, def_richcompare, def_hash, init_once, def_init,
}
use sciforge.Binding.Module.{Statement, def, def_kw, raw, wrap}

-- The functions with keyword arguments, and the wrapped classes, by number.
abbrev pub greater_func : ℕ
greater_func = 0

abbrev pub widget_class : ℕ
widget_class = 0

abbrev pub raw_functions : List Statement
raw_functions =
    raw (codes "raise_runtime") no_args
    ∷ raw (codes "raise_bad_alloc") no_args
    ∷ raw (codes "raise_unknown") no_args
    ∷ raw (codes "compute") var_args
    ∷ raw (codes "release_then_throw") no_args
    ∷ raw (codes "make_handle") var_args
    ∷ []

abbrev pub plain_functions : List Statement
plain_functions =
    def (codes "is_even")
    ∷ def (codes "scale")
    ∷ def (codes "echo")
    ∷ def (codes "sv_echo")
    ∷ def (codes "blen")
    ∷ def (codes "upto")
    ∷ def (codes "identity")
    ∷ def (codes "fresh_list")
    ∷ def (codes "value_error")
    ∷ def (codes "noop")
    ∷ def (codes "boom")
    ∷ def (codes "handle_value")
    ∷ []

abbrev pub keyword_functions : List Statement
keyword_functions =
    def_kw greater_func (codes "greater")
      (required (codes "x") ∷ defaulted (codes "n") (signed (pos 0)) ∷ [])
    ∷ def_kw 1 (codes "up_to") (defaulted (codes "n") (unsigned max_unsigned) ∷ [])
    ∷ def_kw 2 (codes "suffixed")
        (required (codes "s") ∷ defaulted (codes "suffix") (text (codes "!")) ∷ [])
    ∷ def_kw 3 (codes "defaulted_to_none")
        (required (codes "x") ∷ defaulted (codes "extra") none_default ∷ [])
    ∷ def_kw 4 (codes "maybe_len")
        (required (codes "s") ∷ defaulted (codes "opt") none_default ∷ [])
    ∷ []

-- The second registration of Widget is there to show that it does nothing.
abbrev pub widget_registrations : List Statement
widget_registrations =
    wrap widget_class (codes "bindingdemo.Widget") (
      def_repr
      ∷ def_richcompare
      ∷ def_hash
      ∷ BuilderCall.def (codes "area")
      ∷ def_prop_ro (codes "width")
      ∷ def_prop_ro (codes "dims")
      ∷ BuilderCall.raw (codes "describe") no_args
      ∷ [])
    ∷ wrap widget_class (codes "bindingdemo.Widget") (BuilderCall.def (codes "area_again") ∷ [])
    ∷ []

abbrev pub widget_functions : List Statement
widget_functions =
    def (codes "make_widget")
    ∷ def (codes "widget_perimeter")
    ∷ def (codes "echo_u64")
    ∷ def (codes "nested_bad")
    ∷ def (codes "tuple_bad")
    ∷ def (codes "negate")
    ∷ def (codes "u64_max")
    ∷ []

abbrev pub vec_registrations : List Statement
vec_registrations =
    wrap 1 (codes "bindingdemo.Vec") (
      def_init 5 (
        required (codes "x")
        ∷ defaulted (codes "scale") none_default
        ∷ defaulted (codes "label") (text (codes "v"))
        ∷ [])
      ∷ BuilderCall.def (codes "total")
      ∷ def_prop_ro (codes "label")
      ∷ [])
    ∷ wrap 2 (codes "bindingdemo.FixedVec")
        (init_once ∷ def_init 6 (required (codes "x") ∷ []) ∷ BuilderCall.def (codes "x") ∷ [])
    ∷ []

abbrev pub demo_body : List Statement
demo_body =
    raw_functions
    ++ (plain_functions
        ++ (keyword_functions
            ++ (def (codes "classify")
                ∷ def (codes "triple")
                ∷ (widget_registrations ++ (widget_functions ++ vec_registrations)))))
