-- ===== src/Example/Guarded.antt =====
-- examples/binding_consumer/bindingdemo/_demo.cpp, the functions that release the GIL: work, compute and
-- release_then_throw.
use sciforge.Base.{ℕ, zero, suc, ◌+◌, ◌%◌, not, codes, Option, none, some}
use sciforge.Base.Int.{ℤ, pos, pos_part, leb_ℤ}
use sciforge.Cpp.{Result, ok, throw, std_exception}
use sciforge.Binding.Python.{Ptr, World}
use sciforge.Binding.Error.{set_cpp_error}
use sciforge.Binding.Gil.{Threads, scoped_gil_release, gil_release}

abbrev pub threshold : ℕ
threshold = 4096

-- The loop of work, with `left` rounds to go: the sum stays below 6 times their number, so it does not
-- leave the range of a long long for any size that a loop can reach.
unfoldable pub work_loop : (left i acc : ℕ) → ℕ
work_loop zero i acc = acc
work_loop (suc left) i acc = work_loop left (suc i) (acc + i % 7)

unfoldable pub work : ℕ → ℕ
unfolding work_loop
work n = work_loop n 0 0

module _ {G Args : Type 0} (T : Threads G) (parse : Args → G × World → Option ℤ × (G × World))
    (long_from_long_long : ℤ → G × World → Ptr × (G × World)) where
  -- work throws nothing.
  abbrev pub summed : Result ℕ × (G × World) → Ptr × (G × World)
  summed (ok result, s) = long_from_long_long (pos result) s
  summed (throw e, s) = (none, s)

  abbrev pub compute_parsed : Option ℤ × (G × World) → Ptr × (G × World)
  compute_parsed (none, s) = (none, s)
  compute_parsed (some size, s) = summed (
      scoped_gil_release T (not (leb_ℤ size (pos threshold)))
        (λ s'. (ok (work (pos_part size)), s')) s)

  unfoldable pub compute : Args → G × World → Ptr × (G × World)
  unfolding work scoped_gil_release
  compute args s = compute_parsed (parse args s)

module _ {G : Type 0} (T : Threads G) where
  abbrev pub after_catch : Ptr → Result (Unit {0}) × (G × World) → Ptr × (G × World)
  after_catch error_type (ok u, s) = (none, s)
  after_catch error_type (throw e, (g, w)) =
      let (r, w') = set_cpp_error error_type e w in (r, (g, w'))

  unfoldable pub release_then_throw : Ptr → G × World → Ptr × (G × World)
  unfolding gil_release set_cpp_error
  release_then_throw error_type s = after_catch error_type (
      gil_release T (λ s'. (throw (std_exception (codes "thrown while the GIL was released")), s'))
        s)
