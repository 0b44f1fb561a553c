-- ===== src/Harness/Checks.antt =====
-- The checks of include/sciforge/test/framework.hpp: passed, report_failure, check, check_eq,
-- check_near, print_value and the EXPECT macros.
use sciforge.Base.{
  ℕ, suc, Bytes, codes, bytes_eq, Bool, true, false, [], ◌∷◌, ◌++◌, Option, none, some, ◌==◌,
  if◌then◌else◌,
}
use sciforge.Base.Int.{ℤ, pos, negsuc}
use sciforge.Base.Decimal.{print_nat}

-- The variables of `test::detail`, and what has been printed.
pub record State : Type 0 where
  pub checks_passed : ℕ
  pub checks_failed : ℕ
  pub current_test : Bytes
  pub current_failed : Bool
  pub last_file : Bytes
  pub last_line : ℕ
  pub out : Bytes

-- Where a check stands: __FILE__ and __LINE__.
pub record Place : Type 0 where
  pub file : Bytes
  pub line : ℕ

-- `message.c_str()` as `%s` prints it: up to its first NUL.
unfoldable pub c_str : Bytes → Bytes
c_str [] = []
c_str (c ∷ text) = let rest = c_str text in if c == 0 then [] else c ∷ rest

-- The line that report_failure prints, with `text` for its last `%s`.
abbrev pub printed_line : State → Place → Bytes → Bytes
printed_line s p text =
    codes "  FAIL "
    ++ (p.file
        ++ (codes ":"
            ++ (print_nat p.line
                ++ (codes " [" ++ (s.current_test ++ (codes "] " ++ (text ++ codes "\n")))))))

abbrev pub fail_line : State → Place → Bytes → Bytes
fail_line s p message = printed_line s p (c_str message)

unfoldable pub passed : Place → State → State
passed p s = record s {
  checks_passed = suc s.checks_passed;
  last_file = p.file;
  last_line = p.line;
}

unfoldable pub report_failure : Place → Bytes → State → State
report_failure p message s = record s {
  checks_failed = suc s.checks_failed;
  current_failed = true;
  last_file = p.file;
  last_line = p.line;
  out = s.out ++ fail_line s p message;
}

unfoldable pub check : Bool → Place → Bytes → State → State
unfolding passed report_failure
check condition p expr s = if condition then passed p s else report_failure p expr s

-- An operand of EXPECT_EQ, by how its type is classified, with the text that `<<` makes of it (`none`
-- where its type has no `<<`). A C string is `none` for a null pointer, else the bytes before its NUL.
pub data Operand : Type 0 where
  integer : ℤ → Bytes → Operand
  c_string : Option Bytes → Operand
  other : Option Bytes → Operand

unfoldable pub print_value : Operand → Bytes
print_value (integer _ text) = text
print_value (c_string none) = codes "nullptr"
print_value (c_string (some text)) = text
print_value (other none) = codes "<unprintable>"
print_value (other (some text)) = text

-- `std::cmp_equal`: by value, whatever the signs and widths of the types.
unfoldable pub cmp_equal : ℤ → ℤ → Bool
cmp_equal (pos a) (pos b) = a == b
cmp_equal (pos a) (negsuc b) = false
cmp_equal (negsuc a) (pos b) = false
cmp_equal (negsuc a) (negsuc b) = a == b

-- Two C strings: pointers compare where one is null, contents otherwise.
unfoldable pub c_string_equal : Option Bytes → Option Bytes → Bool
c_string_equal none none = true
c_string_equal none (some b) = false
c_string_equal (some a) none = false
c_string_equal (some a) (some b) = bytes_eq a b

-- Whether check_eq takes the two values for equal; `same` is what `actual == expected` gives, which
-- is asked only where the types are neither two integers nor two C strings.
unfoldable pub operands_equal : Operand → Operand → Bool → Bool
unfolding cmp_equal c_string_equal
operands_equal (integer a _) (integer b _) same = cmp_equal a b
operands_equal (c_string a) (c_string b) same = c_string_equal a b
operands_equal _ _ same = same

-- " — actual: ", in UTF-8.
abbrev pub actual_mark : Bytes
actual_mark = b' ' ∷ 0xe2 ∷ 0x80 ∷ 0x94 ∷ codes " actual: "

unfoldable pub check_eq : Operand → Operand → Bool → Place → Bytes → State → State
unfolding passed report_failure
check_eq actual expected same p expr s =
    if operands_equal actual expected same
    then passed p s
    else report_failure p
        (expr
          ++ (actual_mark
              ++ (print_value actual ++ (codes ", expected: " ++ print_value expected))))
        s

-- The `double` of a check: whether |a - b| <= tol holds (it does not where one is a NaN), and the
-- text of a value with 17 digits.
pub record Real : Type 1 where
  pub F : Type 0
  pub within : F → F → F → Bool
  pub print_17 : F → Bytes

module _ (R : Real) where
  open R use {F, within, print_17}

  unfoldable pub check_near : F → F → F → Place → Bytes → State → State
  unfolding passed report_failure
  check_near actual expected tolerance p expr s =
      if within actual expected tolerance
      then passed p s
      else report_failure p
          (expr
            ++ (actual_mark
                ++ (print_17 actual
                    ++ (codes ", expected: "
                        ++ (print_17 expected ++ (codes ", tolerance: " ++ print_17 tolerance))))))
          s

-- What the expression of EXPECT_THROWS does: nothing, or it throws, where `matches` says whether the
-- exception is of the type asked for.
pub data Thrown : Type 0 where
  nothing : Thrown
  exception : (matches : Bool) → Thrown

unfoldable pub caught : Thrown → Bool
caught nothing = false
caught (exception matches) = matches

unfoldable pub expect_throws : Thrown → Place → Bytes → State → State
unfolding check
expect_throws thrown p text s = check (caught thrown) p (codes "throws " ++ text) s
