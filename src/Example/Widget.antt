-- ===== src/Example/Widget.antt =====
-- examples/binding_consumer/bindingdemo/_demo.cpp: Widget, a class that the substrate wraps, with its
-- functions. Arithmetic on long long gives `none` where it would overflow, which C++ leaves undefined.
use sciforge.Base.{
  ℕ, ◌-◌, ◌*◌, ◌%◌, ◌^◌, ◌==◌, Bytes, codes, Bool, false, ◌&&◌, ◌++◌, List, [], ◌∷◌, Option, none,
  some, if◌then◌else◌,
}
use sciforge.Base.Int.{ℤ, pos, negsuc, leb_ℤ, ◌+ℤ◌, ◌*ℤ◌}
use sciforge.Base.Decimal.{print_int}
use sciforge.Binding.Python.{Ptr, World}
use sciforge.Binding.Convert.{i64, min_of, max_of}
use Prim.Native.Nat.{bit_xor}

-- Each of the two is a long long.
pub record Widget : Type 0 where
  pub w : ℤ
  pub h : ℤ

-- The exact result of an operation on long long, where it has one.
unfoldable pub in_long_long : ℤ → Option ℤ
in_long_long n = if leb_ℤ (min_of i64) n && leb_ℤ n (pos (max_of i64)) then some n else none

unfoldable pub area : Widget → Option ℤ
unfolding in_long_long
area g = in_long_long (g.w *ℤ g.h)

abbrev pub width : Widget → ℤ
width g = g.w

-- Py_BuildValue with the format "(LL)".
abbrev pub widget_dims : (Bytes → List ℤ → World → Ptr × World) → Widget → World → Ptr × World
widget_dims build_value g = build_value (codes "(LL)") (g.w ∷ g.h ∷ [])

unfoldable pub widget_repr : Widget → Bytes
unfolding print_int
widget_repr g = codes "Widget(" ++ (print_int g.w ++ (codes ", " ++ (print_int g.h ++ codes ")")))

abbrev pub equal_ℤ : ℤ → ℤ → Bool
equal_ℤ (pos m) (pos n) = m == n
equal_ℤ (pos m) (negsuc n) = false
equal_ℤ (negsuc m) (pos n) = false
equal_ℤ (negsuc m) (negsuc n) = m == n

unfoldable pub widget_eq : Widget → Widget → Bool
widget_eq a b = equal_ℤ a.w b.w && equal_ℤ a.h b.h

-- `static_cast<std::size_t>`.
abbrev pub to_size : ℤ → ℕ
to_size (pos n) = n % 2 ^ 64
to_size (negsuc n) = 2 ^ 64 - 1 - n % 2 ^ 64

unfoldable pub widget_hash : Widget → ℕ
widget_hash g = bit_xor (to_size g.w * 1000003 % 2 ^ 64) (to_size g.h)

abbrev pub make_widget : ℤ → ℤ → Widget
make_widget w h = record { w = w; h = h }

abbrev pub doubled : Option ℤ → Option ℤ
doubled none = none
doubled (some n) = in_long_long (pos 2 *ℤ n)

-- `2 * (g.w + g.h)`, sum and product.
unfoldable pub widget_perimeter : Widget → Option ℤ
unfolding in_long_long
widget_perimeter g = doubled (in_long_long (g.w +ℤ g.h))

-- What `self` holds, read without a test; PyUnicode_FromFormat writes "%lld" like print_int.
unfoldable pub widget_describe : (Bytes → World → Ptr × World) → Widget → World → Ptr × World
unfolding print_int
widget_describe unicode g =
    unicode (codes "Widget(" ++ (print_int g.w ++ (codes ", " ++ (print_int g.h ++ codes ")"))))
