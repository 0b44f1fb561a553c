-- ===== src/Example/Described.antt =====
-- What Python sees of a Widget of examples/binding_consumer/bindingdemo/_demo.cpp: its text tells widgets
-- apart as its `==` does. The text of print_int can be told from what stands behind it.
use sciforge.Base.{
  ℕ, ◌+◌, ◌≡◌, ◌≢◌, ◌↔◌, refl, sym, ap, ◌∙◌, Bytes, codes, true, [], ◌∷◌, ◌++◌, arith, All, ==_refl,
}
use sciforge.Base.Int.{ℤ, pos, negsuc}
use sciforge.Base.Decimal.{
  IsDigit, print_nat, print_int, print_nat-value, print_nat-IsDigit, decimal_value,
}
use sciforge.Example.Widget.{Widget, equal_ℤ, widget_eq, widget_repr}
use sciforge.Example.Hashable.{widget_eq-equal}

-- Two texts of digits with something else behind each are the same when the whole is.
split_digits :
    (s t : Bytes) (c d : ℕ) (x y : Bytes)
    → All IsDigit s
    → All IsDigit t
    → ¬ (IsDigit c)
    → ¬ (IsDigit d)
    → s ++ c ∷ x ≡ t ++ d ∷ y
    → (s ≡ t) × (x ≡ y)
split_digits [] [] c d x y hs ht hc hd e = (refl, cc)
split_digits [] (b ∷ t) c d x y hs ht hc hd e = let same : c ≡ b = cc in absurd (hc (rw same ht.0))
split_digits (a ∷ s) [] c d x y hs ht hc hd e =
    let same : a ≡ d = cc in absurd (hd (rw (sym same) hs.0))
split_digits (a ∷ s) (b ∷ t) c d x y hs ht hc hd e =
    let rest : s ++ c ∷ x ≡ t ++ d ∷ y = cc in
    let same : a ≡ b = cc in
    let (es, ex) = split_digits s t c d x y hs.1 ht.1 hc hd rest in (cc, ex)

print_nat-equal : (m n : ℕ) → print_nat m ≡ print_nat n → m ≡ n
print_nat-equal m n e = sym (print_nat-value m) ∙ ap (decimal_value 0) e ∙ print_nat-value n

zero_printed : print_nat 0 ≢ []
unfolding print_nat
zero_printed e = cc

-- A text of digits does not begin with a sign.
unsigned_ne : (m : ℕ) (c : ℕ) (x y : Bytes) → ¬ (IsDigit c) → print_nat m ++ c ∷ x ≢ b'-' ∷ y
unsigned_ne m c x y hc e =
    let (empty, rest) =
      split_digits (print_nat m) [] c b'-' x y (print_nat-IsDigit m) tt hc (λ h. omega (arith, h.0))
        e in
    let zero_is : m ≡ 0 = sym (print_nat-value m) ∙ ap (decimal_value 0) empty in
    let none_printed : print_nat 0 ≡ [] = ap print_nat (sym zero_is) ∙ empty in
    zero_printed none_printed

split_int :
    (a b : ℤ) (c d : ℕ) (x y : Bytes)
    → ¬ (IsDigit c)
    → ¬ (IsDigit d)
    → print_int a ++ c ∷ x ≡ print_int b ++ d ∷ y
    → (a ≡ b) × (x ≡ y)
unfolding print_int
split_int (pos m) (pos n) c d x y hc hd e =
    let (same, rest) =
      split_digits (print_nat m) (print_nat n) c d x y (print_nat-IsDigit m) (print_nat-IsDigit n)
        hc hd e in
    (ap pos (print_nat-equal m n same), rest)
split_int (pos m) (negsuc n) c d x y hc hd e =
    absurd (unsigned_ne m c x (print_nat (n + 1) ++ d ∷ y) hc e)
split_int (negsuc m) (pos n) c d x y hc hd e =
    absurd (unsigned_ne n d y (print_nat (m + 1) ++ c ∷ x) hd (sym e))
split_int (negsuc m) (negsuc n) c d x y hc hd e =
    let digits : print_nat (m + 1) ++ c ∷ x ≡ print_nat (n + 1) ++ d ∷ y = cc in
    let (same, rest) =
      split_digits (print_nat (m + 1)) (print_nat (n + 1)) c d x y (print_nat-IsDigit (m + 1))
        (print_nat-IsDigit (n + 1)) hc hd digits in
    let back : m ≡ n = omega (arith, print_nat-equal (m + 1) (n + 1) same) in (ap negsuc back, rest)

widget_repr-equal : (a b : Widget) → widget_repr a ≡ widget_repr b → a ≡ b
unfolding widget_repr
widget_repr-equal a b e =
    let tail : print_int a.w ++ (codes ", " ++ (print_int a.h ++ codes ")"))
        ≡ print_int b.w ++ (codes ", " ++ (print_int b.h ++ codes ")")) =
      cc in
    let (same_w, behind) =
      split_int a.w b.w b',' b',' _ _ (λ h. omega (arith, h.0)) (λ h. omega (arith, h.0)) tail in
    let last : print_int a.h ++ codes ")" ≡ print_int b.h ++ codes ")" = cc in
    let (same_h, end) =
      split_int a.h b.h b')' b')' [] [] (λ h. omega (arith, h.0)) (λ h. omega (arith, h.0)) last in
    cc

equal_ℤ_refl : (a : ℤ) → equal_ℤ a a ≡ true
equal_ℤ_refl (pos n) = ==_refl n
equal_ℤ_refl (negsuc n) = ==_refl n

widget_eq-same : (g : Widget) → widget_eq g g ≡ true
unfolding widget_eq
widget_eq-same g = rw (equal_ℤ_refl g.w, equal_ℤ_refl g.h) refl

-- Python finds two widgets equal by their `==` exactly when they have the same text.
pub widget_eq_iff : (a b : Widget) → (widget_eq a b ≡ true) ↔ (widget_repr a ≡ widget_repr b)
widget_eq_iff a b = (
  λ e. ap widget_repr (widget_eq-equal a b e),
  λ e. rw (widget_repr-equal a b e) (widget_eq-same b),
)
