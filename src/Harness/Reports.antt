-- ===== src/Harness/Reports.antt =====
-- What a check of include/sciforge/test/framework.hpp reports: when EXPECT_EQ takes two values for
-- equal, and where an exception that escapes a test is said to be.
use sciforge.Base.{
  ℕ, suc, ap, ◌==◌, ◌≡◌, ◌≢◌, ◌↔◌, ◌⊎◌, refl, ◌∙◌, Bytes, codes, bytes_eq, Bool, true, List, [],
  ◌∷◌, ◌++◌, Option, none, some, arith, Bool-cases, inl, inr, ==_refl, All,
}
use sciforge.Base.Int.{ℤ, pos, negsuc}
use sciforge.Harness.Checks.{
  State, Place, Operand, integer, c_string, other, Real, check_eq, passed, print_value,
  operands_equal, cmp_equal, c_string_equal, c_str, printed_line, fail_line, actual_mark,
}
use sciforge.Harness.Runner.{
  Check, expect, expect_eq, expect_near, expect_throw, TestCase, Ending, throws_std, perform,
  run_checks, run_test, start_test, report_escaped, last_check,
}

bytes_eq_refl : (s : Bytes) → bytes_eq s s ≡ true
bytes_eq_refl [] = refl
bytes_eq_refl (c ∷ s) = rw (==_refl, bytes_eq_refl s)

eq_of_bytes_eq : (s t : Bytes) → bytes_eq s t ≡ true → s ≡ t
eq_of_bytes_eq [] [] h = refl
eq_of_bytes_eq [] (d ∷ t) h = cc
eq_of_bytes_eq (c ∷ s) [] h = cc
eq_of_bytes_eq (c ∷ s) (d ∷ t) h = ground (arith, eq_of_bytes_eq s t)

-- What EXPECT_EQ should compare: two integers by value, two C strings by content (a null one equals
-- only a null one), everything else by the `==` of its types.
abbrev pub Agree : Operand → Operand → Bool → Type 0
Agree (integer a _) (integer b _) same = a ≡ b
Agree (c_string a) (c_string b) same = a ≡ b
Agree _ _ same = same ≡ true

cmp_equal_iff : (a b : ℤ) → (cmp_equal a b ≡ true) ↔ (a ≡ b)
unfolding cmp_equal
cmp_equal_iff (pos a) (pos b) = ground arith
cmp_equal_iff (pos a) (negsuc b) = ground arith
cmp_equal_iff (negsuc a) (pos b) = ground arith
cmp_equal_iff (negsuc a) (negsuc b) = ground arith

c_string_equal_iff : (a b : Option Bytes) → (c_string_equal a b ≡ true) ↔ (a ≡ b)
unfolding c_string_equal
c_string_equal_iff none none = ground arith
c_string_equal_iff none (some b) = ground arith
c_string_equal_iff (some a) none = ground arith
c_string_equal_iff (some a) (some b) = ground (arith, eq_of_bytes_eq a b, bytes_eq_refl a)

operands_equal_iff :
    (a b : Operand) (same : Bool) → (operands_equal a b same ≡ true) ↔ Agree a b same
unfolding operands_equal
operands_equal_iff (integer a _) (integer b _) same = cmp_equal_iff a b
operands_equal_iff (c_string a) (c_string b) same = c_string_equal_iff a b
operands_equal_iff (integer a _) (c_string b) same = (λ h. h, λ h. h)
operands_equal_iff (integer a _) (other b) same = (λ h. h, λ h. h)
operands_equal_iff (c_string a) (integer b _) same = (λ h. h, λ h. h)
operands_equal_iff (c_string a) (other b) same = (λ h. h, λ h. h)
operands_equal_iff (other a) _ same = (λ h. h, λ h. h)

-- What a message shows where it is printed as a C string: all of it, or what stands before its first
-- NUL.
abbrev pub IsShown : Bytes → Bytes → Type 0
IsShown message text =
    All (λ c. c ≢ 0) text × ((message ≡ text) ⊎ ((rest : Bytes) × (message ≡ text ++ 0 ∷ rest)))

IsShown-cons :
    (c : ℕ) (message text : Bytes) → c ≢ 0 → IsShown message text → IsShown (c ∷ message) (c ∷ text)
IsShown-cons c message text h (visible, inl all) = ((h, visible), inl (ap (λ t. c ∷ t) all))
IsShown-cons c message text h (visible, inr (rest, cut)) =
    ((h, visible), inr (rest, ap (λ t. c ∷ t) cut))

c_str-IsShown : (message : Bytes) → IsShown message (c_str message)
unfolding c_str
c_str-IsShown [] = (tt, inl refl)
c_str-IsShown (c ∷ message) = elim (Bool-cases (c == 0)) [
  | inl nul ↦ rw nul (tt, inr (message, ground (arith, nul)))
  | inr visible ↦ rw visible (
      IsShown-cons c message (c_str message) (λ z. ground (arith, visible)) (c_str-IsShown message))
]

-- EXPECT_EQ counts a passed check exactly when the two operands agree. Where they do not, it counts a
-- failed one, marks the test as failed, and prints a line with the place, the test and both values.
-- The text of the values is shown whole, or, if a byte of it or of the expression is NUL, up to the
-- first such byte.
pub check_eq-Agree :
    (a b : Operand) (same : Bool) (p : Place) (expr : Bytes) (s : State)
    → let s' = check_eq a b same p expr s in
      let message =
        expr ++ (actual_mark ++ (print_value a ++ (codes ", expected: " ++ print_value b))) in
      (Agree a b same × (s' ≡ passed p s))
      ⊎ ((¬ (Agree a b same))
          × (s'.checks_failed ≡ suc s.checks_failed)
          × (s'.checks_passed ≡ s.checks_passed)
          × (s'.current_failed ≡ true)
          × ((text : Bytes) × IsShown message text × (s'.out ≡ s.out ++ printed_line s p text)))
unfolding check_eq
check_eq-Agree a b same p expr s = elim (Bool-cases (operands_equal a b same)) [
  | inl equal ↦ inl ((operands_equal_iff a b same).0 equal, rw equal)
  | inr differ ↦
      let message =
        expr ++ (actual_mark ++ (print_value a ++ (codes ", expected: " ++ print_value b))) in
      inr (
        λ agree. cc ((operands_equal_iff a b same).1 agree),
        rw differ,
        rw differ,
        rw differ,
        (c_str message, c_str-IsShown message, rw differ),
      )
]

report_escaped-std :
    (body s : State) (what : Bytes) (e : Ending) (p : Place)
    → e ≡ throws_std what
    → last_check body ≡ p
    → body.current_test ≡ s.current_test
    → let s' = report_escaped e body in
      (s'.out ≡ body.out ++ fail_line s p (codes "unexpected exception after this check: " ++ what))
      × (s'.checks_failed ≡ suc body.checks_failed)
      × (s'.current_failed ≡ true)
unfolding report_escaped
report_escaped-std body s what e p ends place test = rw (ends, ← place, test) (refl, refl, refl)

module _ (R : Real) where
  open R use {F}

  abbrev pub place_of : Check F → Place
  place_of (expect condition p text) = p
  place_of (expect_eq a b same p text) = p
  place_of (expect_near a b tolerance p text) = p
  place_of (expect_throw thrown p text) = p

  -- The place of the last check of a body, or what stands for "before any check".
  pub last_place : Place → List (Check F) → Place
  last_place p [] = p
  last_place p (c ∷ cs) = last_place (place_of c) cs

  abbrev pub unknown : Place
  unknown = record { file = codes "[before any check]"; line = 0 }

  perform-place :
      (c : Check F) (s : State)
      → ((perform R c s).last_file ≡ (place_of c).file)
        × ((perform R c s).last_line ≡ (place_of c).line)
        × ((perform R c s).current_test ≡ s.current_test)
  unfolding perform
  perform-place (expect condition p text) s = ground arith
  perform-place (expect_eq a b same p text) s = ground arith
  perform-place (expect_near a b tolerance p text) s = ground arith
  perform-place (expect_throw thrown p text) s = ground arith

  run_checks-place :
      (cs : List (Check F)) (s : State) (p : Place)
      → s.last_file ≡ p.file
      → s.last_line ≡ p.line
      → ((run_checks R cs s).last_file ≡ (last_place p cs).file)
        × ((run_checks R cs s).last_line ≡ (last_place p cs).line)
        × ((run_checks R cs s).current_test ≡ s.current_test)
  unfolding run_checks last_place
  run_checks-place [] s p f l = (f, l, refl)
  run_checks-place (c ∷ cs) s p f l =
      let one = perform-place c s in
      let rest = run_checks-place cs (perform R c s) (place_of c) one.0 one.1 in
      (rest.0, rest.1, rest.2 ∙ one.2)

  last_place_nonzero :
      (cs : List (Check F)) (p : Place)
      → p.line ≢ 0
      → All (λ c. (place_of c).line ≢ 0) cs
      → (last_place p cs).line ≢ 0
  unfolding last_place
  last_place_nonzero [] p h hs = h
  last_place_nonzero (c ∷ cs) p h hs = last_place_nonzero cs (place_of c) hs.0 hs.1

  last_check_lem :
      (s : State) (p : Place)
      → s.last_file ≡ p.file
      → s.last_line ≡ p.line
      → p.line ≢ 0
      → last_check s ≡ p
  unfolding last_check
  last_check_lem s p f l h = ground arith

  last_check-run_checks :
      (name : Bytes) (cs : List (Check F)) (s : State)
      → All (λ c. (place_of c).line ≢ 0) cs
      → (last_check (run_checks R cs (start_test name s)) ≡ last_place unknown cs)
        × ((run_checks R cs (start_test name s)).current_test ≡ name)
  unfolding start_test last_place
  last_check-run_checks name [] s h =
      (unfold run_checks last_check in refl, unfold run_checks in refl)
  last_check-run_checks name (c ∷ cs) s h =
      let start = start_test name s in
      let one = perform-place c start in
      let rest = run_checks-place cs (perform R c start) (place_of c) one.0 one.1 in
      (
        unfold run_checks in
            last_check_lem _ (last_place (place_of c) cs) rest.0 rest.1
              (last_place_nonzero cs (place_of c) h.0 h.1),
        unfold run_checks in rest.2 ∙ one.2,
      )

  -- A std::exception that escapes a test is reported as a failed check of that test at its last check
  -- (at "[before any check]" and line 0 if it made none), on a line that holds what(), up to its first NUL -- for a test
  -- whose checks stand at lines above 0.
  pub run_test-escaped :
      (t : TestCase F) (what : Bytes) (s : State)
      → t.ending ≡ throws_std what
      → All (λ c. (place_of c).line ≢ 0) t.checks
      → let body = run_checks R t.checks (start_test t.name s) in
        let s' = run_test R t s in
        (s'.out
          ≡ body.out
            ++ fail_line
                (start_test t.name s)
                (last_place unknown t.checks)
                (codes "unexpected exception after this check: " ++ what))
        × (s'.checks_failed ≡ suc body.checks_failed)
        × (s'.current_failed ≡ true)
  unfolding run_test
  run_test-escaped t what s e h =
      let body = run_checks R t.checks (start_test t.name s) in
      let at_end = last_check-run_checks t.name t.checks s h in
      report_escaped-std body (start_test t.name s) what t.ending (last_place unknown t.checks) e
        at_end.0 (at_end.1 ∙ unfold start_test in refl)
