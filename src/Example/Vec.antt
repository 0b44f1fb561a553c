-- ===== src/Example/Vec.antt =====
-- examples/binding_consumer/bindingdemo/_demo.cpp: Vec and FixedVec, classes that Python constructs, with
-- their factories and functions. FixedVec has the fields of Vec and no others.
use sciforge.Base.{Bytes, codes, Option, none, some}
use sciforge.Base.Int.{ℤ, pos, ◌*ℤ◌}
use sciforge.Example.Widget.{in_long_long}

pub record Vec : Type 0 where
  pub x : ℤ
  pub scale : ℤ
  pub label : Bytes

abbrev pub make_vec : ℤ → Option ℤ → Bytes → Vec
make_vec x none label = record { x = x; scale = pos 1; label = label }
make_vec x (some scale) label = record { x = x; scale = scale; label = label }

abbrev pub make_fixed_vec : ℤ → Vec
make_fixed_vec x = record { x = x; scale = pos 1; label = codes "fixed" }

abbrev pub fixed_vec_x : Vec → ℤ
fixed_vec_x v = v.x

unfoldable pub vec_total : Vec → Option ℤ
unfolding in_long_long
vec_total v = in_long_long (v.x *ℤ v.scale)

abbrev pub vec_label : Vec → Bytes
vec_label v = v.label
