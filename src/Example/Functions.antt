-- ===== src/Example/Functions.antt =====
-- examples/binding_consumer/bindingdemo/_demo.cpp: the functions of the module that release no GIL and
-- belong to no class. Arithmetic on long long gives `none` where it would overflow.
use sciforge.Base.{
  ℕ, zero, suc, ◌%◌, ◌==◌, Bytes, codes, Bool, not, List, [], ◌∷◌, ◌++◌, Option, none, some,
  if◌then◌else◌, length,
}
use sciforge.Base.Int.{ℤ, pos, negsuc, pos_part, leb_ℤ, ◌+ℤ◌}
use sciforge.Cpp.{bad_alloc, std_exception, non_standard}
use sciforge.Binding.Python.{Ptr, World, PyError, Double, Python, Py, set_error, pure, raise}
use sciforge.Binding.Error.{set_cpp_error}
use sciforge.Binding.Convert.{max_unsigned}
use sciforge.Example.Widget.{in_long_long}

-- The three that throw and catch; `error_type` is what sciforge_module_error() gives.
unfoldable pub raise_runtime : Ptr → World → Ptr × World
unfolding set_cpp_error
raise_runtime error_type = set_cpp_error error_type (std_exception (codes "boom from C++"))

unfoldable pub raise_bad_alloc : Ptr → World → Ptr × World
unfolding set_cpp_error
raise_bad_alloc error_type = set_cpp_error error_type bad_alloc

unfoldable pub raise_unknown : Ptr → World → Ptr × World
unfolding set_cpp_error
raise_unknown error_type = set_cpp_error error_type non_standard

-- `n % 2 == 0`, which a negative number passes like its absolute value.
unfoldable pub is_even : ℤ → Bool
is_even (pos n) = n % 2 == 0
is_even (negsuc n) = suc n % 2 == 0

-- The product of doubles and the conversion to one.
pub record DoubleArithmetic : Type 0 where
  pub times : Double → Double → Double
  pub from_long_long : ℤ → Double

abbrev pub scale : DoubleArithmetic → Double → ℤ → Double
scale D x k = D.times x (D.from_long_long k)

abbrev pub echo : Bytes → Bytes
echo s = s

abbrev pub sv_echo : Bytes → Bytes
sv_echo s = s

abbrev pub blen : Bytes → ℕ
blen b = length b

abbrev pub count_up : (left i : ℕ) → List ℕ → List ℕ
count_up zero i out = out
count_up (suc left) i out = count_up left (suc i) (out ++ i ∷ [])

unfoldable pub upto : ℤ → List ℕ
upto n = count_up (pos_part n) 0 []

-- Py_NewRef of the argument.
abbrev pub identity : ℕ → World → Ptr × World
identity o w = (some o, record w { owned = o ∷ w.owned })

abbrev pub fresh_list : Python → World → Ptr × World
fresh_list P = P.list_new 0

-- A ValueError that the function sets itself.
abbrev pub value_error : PyError → World → Ptr × World
value_error e w = (none, set_error e w)

abbrev pub noop : Py (Unit {0})
noop = pure tt

abbrev pub boom : Py ℤ
boom = raise (std_exception (codes "boom via dispatch"))

abbrev pub greater : ℤ → ℤ → Bool
greater x n = not (leb_ℤ x n)

abbrev pub up_to : ℕ → ℕ
up_to n = n

abbrev pub suffixed : Bytes → Bytes → Bytes
suffixed s suffix = s ++ suffix

-- Whether `extra` is None.
abbrev pub defaulted_to_none : Python → ℕ → ℕ → Bool
defaulted_to_none P x extra = extra == P.none_object

abbrev pub maybe_len : Bytes → Option Bytes → ℕ
maybe_len s none = length s
maybe_len s (some opt) = length opt

unfoldable pub classify : ℤ → ℤ × Bytes
unfolding is_even
classify n = (n, if is_even n then codes "even" else codes "odd")

abbrev pub three : ℤ → Option ℤ → Option ℤ → Option (ℤ × ℤ × ℤ)
three n none last = none
three n (some next) none = none
three n (some next) (some last) = some (n, next, last)

unfoldable pub triple : ℤ → Option (ℤ × ℤ × ℤ)
unfolding in_long_long
triple n = three n (in_long_long (n +ℤ pos 1)) (in_long_long (n +ℤ pos 2))

-- The byte 0xff begins no character of UTF-8.
abbrev pub not_utf8 : Bytes
not_utf8 = 255 ∷ []

abbrev pub nested_bad : List (List Bytes)
nested_bad = (codes "ok" ∷ []) ∷ (codes "ok" ∷ not_utf8 ∷ []) ∷ []

abbrev pub tuple_bad : Bytes × Bytes
tuple_bad = (codes "ok", not_utf8)

abbrev pub negate : Bool → Bool
negate b = not b

abbrev pub echo_u64 : ℕ → ℕ
echo_u64 n = n

abbrev pub u64_max : ℕ
u64_max = max_unsigned
