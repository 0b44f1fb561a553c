-- ===== src/Example/Computes.antt =====
-- What compute of examples/binding_consumer/bindingdemo/_demo.cpp gives, and who holds the GIL by then.
use sciforge.Base.{
  ℕ, zero, suc, ◌+◌, ◌*◌, ◌%◌, ◌/◌, ◌-◌, ◌≤◌, ◌≡◌, refl, ap, ◌∙◌, not, Bool-cases, Option, some,
  arith, leb, inl, inr,
}
use sciforge.Base.Int.{ℤ, pos, pos_part, leb_ℤ}
use sciforge.Binding.Python.{Ptr, World}
use sciforge.Binding.Gil.{Threads, scoped_gil_release, construct, destroy}
use sciforge.Binding.Gil.Scopes.{SavesThreads}
use sciforge.Example.Guarded.{threshold, work, work_loop, compute}

-- The sum of the remainders of 0 to n - 1 by 7: 21 for each full round, and what the last one has.
abbrev pub triangle : ℕ → ℕ
triangle r = (r * (r - 1)) / 2

abbrev pub remainder_sum : ℕ → ℕ
remainder_sum n = 21 * (n / 7) + triangle (n % 7)

triangle-suc : (r : ℕ) → r ≤ 5 → triangle (suc r) ≡ triangle r + r
triangle-suc zero h = refl
triangle-suc (suc zero) h = refl
triangle-suc (suc (suc zero)) h = refl
triangle-suc (suc (suc (suc zero))) h = refl
triangle-suc (suc (suc (suc (suc zero)))) h = refl
triangle-suc (suc (suc (suc (suc (suc zero))))) h = refl
triangle-suc (suc (suc (suc (suc (suc (suc r)))))) h = absurd (omega (arith, h))

remainder_sum-suc : (n : ℕ) → remainder_sum (suc n) ≡ remainder_sum n + n % 7
remainder_sum-suc n = elim (Bool-cases (leb (n % 7) 5)) [
  | inl within ↦
      let small : n % 7 ≤ 5 = ground (arith, within) in
      let same : suc n % 7 ≡ suc (n % 7) = omega (arith, small) in
      omega (arith, small, ap triangle same, triangle-suc (n % 7) small)
  | inr last ↦
      let six : n % 7 ≡ 6 = ground (arith, last) in
      let round : suc n % 7 ≡ 0 = omega (arith, six) in
      omega (arith, ap triangle six, ap triangle round, six)
]

work_loop-sum :
    (left i acc : ℕ) → acc ≡ remainder_sum i → work_loop left i acc ≡ remainder_sum (i + left)
unfolding work_loop
work_loop-sum zero i acc h = h ∙ ap remainder_sum (omega arith)
work_loop-sum (suc left) i acc h =
    work_loop-sum left (suc i) (acc + i % 7) (omega (arith, h, remainder_sum-suc i))
    ∙ ap remainder_sum (omega arith)

pub work_lem : (n : ℕ) → work n ≡ remainder_sum n
unfolding work
work_lem n = work_loop-sum n 0 0 refl ∙ ap remainder_sum (omega arith)

module _ {G Args : Type 0} (T : Threads G) (Holds Lacks : ℕ → G → Type 0)
    (saves : SavesThreads T Holds Lacks) (parse : Args → G × World → Option ℤ × (G × World))
    (long_from_long_long : ℤ → G × World → Ptr × (G × World)) where
  -- Where the argument is an int, compute makes its result in Python while it holds the GIL, whether or
  -- not it has released it for the sum in between, and the result is the sum of the remainders by 7 of
  -- the numbers below the argument: 21 for each full round of seven, and a triangular number for the
  -- rest; 0 for an argument below 1. CPython's two functions do what it documents of them.
  pub compute-Holds :
      (args : Args) (s s' : G × World) (size : ℤ) (t : ℕ)
      → parse args s ≡ (some size, s')
      → Holds t s'.0
      → (g : G) × Holds t g
        × (compute T parse long_from_long_long args s
            ≡ long_from_long_long (pos (remainder_sum (pos_part size))) (g, s'.1))
  unfolding compute scoped_gil_release construct destroy
  compute-Holds args s (g, w) size t parsed h =
      elim (Bool-cases (not (leb_ℤ size (pos threshold)))) [
        | inr below ↦ (g, h, rw (parsed, below, work_lem (pos_part size)) refl)
        | inl above ↦
            let (state, lacks) = saves.saves t g h in
            (
              T.restore_thread t (T.save_thread g).1,
              saves.restores t (T.save_thread g).1 lacks,
              rw (parsed, above, state, work_lem (pos_part size)) refl,
            )
      ]
